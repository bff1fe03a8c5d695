-- ===== src/Sched/Scan.antt =====
-- The first loop of `pick_next_task` of kernel/task.c: the heaviest running task.
use oscar_kernel.Common.{
  ℕ, ◌≤◌, ◌<◌, ◌≡◌, refl, true, ◌&&◌, Option, some, List, [], ◌∷◌, ◌⊎◌, inl, inr, leb, arith,
  Bool-cases,
}
use oscar_kernel.Sched.{Tasks, is_running, weight, scan}

abbrev pub In : ℕ → List ℕ → Type 0
In p [] = ⊥
In p (q ∷ qs) = (q ≡ p) ⊎ In p qs

-- A running task of the queue that no running task of the queue outweighs.
pub record IsHeaviest (h : Tasks) (ps : List ℕ) (p : ℕ) : Type 0 where
  pub queued : In p ps
  pub runs : is_running (h p).state ≡ true
  pub heaviest : (q : ℕ) → In q ps → is_running (h q).state ≡ true → weight (h q) ≤ weight (h p)

-- What the scan of a queue from `max_counter` and `cand` returns.
pub data Scanned (h : Tasks) (ps : List ℕ) (m : ℕ) (cand : Option ℕ) : Option ℕ → Type 0 where
  kept :
      ((q : ℕ) → In q ps → is_running (h q).state ≡ true → weight (h q) < m)
      → Scanned h ps m cand cand
  better : (p : ℕ) → IsHeaviest h ps p → m ≤ weight (h p) → Scanned h ps m cand (some p)

Scanned-skip :
    {h : Tasks} {ps : List ℕ} {m : ℕ} {cand r : Option ℕ} (x : ℕ)
    → (is_running (h x).state ≡ true → weight (h x) < m)
    → Scanned h ps m cand r
    → Scanned h (x ∷ ps) m cand r
Scanned-skip {h} {ps} {m} x light (kept all) = kept go
  where
    go : (q : ℕ) → In q (x ∷ ps) → is_running (h q).state ≡ true → weight (h q) < m
    go q (inl e) run = rw (← e) (light (rw e run))
    go q (inr i) run = all q i run
Scanned-skip {h} {ps} {m} x light (better p top le) =
    better p (record { queued = inr top.queued; runs = top.runs; heaviest = go }) le
  where
    go : (q : ℕ) → In q (x ∷ ps) → is_running (h q).state ≡ true → weight (h q) ≤ weight (h p)
    go q (inl e) run = let l : weight (h x) < m = light (rw e run) in rw (← e) (omega arith)
    go q (inr i) run = top.heaviest q i run

Scanned-take :
    {h : Tasks} {ps : List ℕ} {m : ℕ} {cand r : Option ℕ} (x : ℕ)
    → is_running (h x).state ≡ true
    → m ≤ weight (h x)
    → Scanned h ps (weight (h x)) (some x) r
    → Scanned h (x ∷ ps) m cand r
Scanned-take {h} {ps} {m} x runs le (kept all) =
    better x (record { queued = inl refl; runs = runs; heaviest = go }) le
  where
    go : (q : ℕ) → In q (x ∷ ps) → is_running (h q).state ≡ true → weight (h q) ≤ weight (h x)
    go q (inl e) run = rw e (omega arith)
    go q (inr i) run = omega (arith, all q i run)
Scanned-take {h} {ps} {m} x runs le (better p top le') =
    better p (record { queued = inr top.queued; runs = top.runs; heaviest = go }) (omega arith)
  where
    go : (q : ℕ) → In q (x ∷ ps) → is_running (h q).state ≡ true → weight (h q) ≤ weight (h p)
    go q (inl e) run = rw (← e) le'
    go q (inr i) run = top.heaviest q i run

pub scan-Scanned :
    (h : Tasks) (ps : List ℕ) (m : ℕ) (cand : Option ℕ) → Scanned h ps m cand (scan h ps m cand)
unfolding scan
scan-Scanned h [] m cand = kept (λ q i run. elim i [ ])
scan-Scanned h (x ∷ ps) m cand =
    elim (Bool-cases (is_running (h x).state && leb m (weight (h x)))) [
      | inl take ↦
          rw take (
            Scanned-take x (ground arith) (ground arith)
              (scan-Scanned h ps (weight (h x)) (some x)))
      | inr skip ↦ rw skip (Scanned-skip x (λ run. ground arith) (scan-Scanned h ps m cand))
    ]
