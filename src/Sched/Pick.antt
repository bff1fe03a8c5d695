-- ===== src/Sched/Pick.antt =====
-- `pick_next_task` of kernel/task.c: it ends, and what it picks.
use oscar_kernel.Common.{
  ℕ, suc, ◌≡◌, ◌≢◌, refl, sym, ap, ◌∙◌, ==_ne, true, false, Option, none, some, List, [], ◌∷◌, ◌⊎◌,
  inl, inr, ◌==◌, ==_iff, if◌then◌else◌, arith, Bool-cases,
}
use oscar_kernel.Sched.{
  Tasks, Rq, is_running, set_task, scan, refill, needs_refill, repick, pick_next_task,
}
use oscar_kernel.Sched.Scan.{In, IsHeaviest, Scanned, kept, better, scan-Scanned}

-- Refilling changes no state and no priority.
pub refill_frame :
    (h : Tasks) (ps : List ℕ) (q : ℕ)
    → ((refill h ps q).state ≡ (h q).state) × ((refill h ps q).prio ≡ (h q).prio)
unfolding refill
refill_frame h [] q = (refl, refl)
refill_frame h (p ∷ ps) q =
    let h' : Tasks =
      if is_running (h p).state then set_task h p (record (h p) { counter = (h p).prio }) else h in
    let rest = refill_frame h' ps q in ground (arith, rest.0, rest.1)

-- A task whose counter is its priority keeps it so.
refill_done :
    (h : Tasks) (ps : List ℕ) (q : ℕ)
    → (h q).counter ≡ (h q).prio
    → (refill h ps q).counter ≡ (h q).prio
unfolding refill
refill_done h [] q e = e
refill_done h (p ∷ ps) q e =
    let h' : Tasks =
      if is_running (h p).state then set_task h p (record (h p) { counter = (h p).prio }) else h in
    ground (arith, refill_done h' ps q)

-- Every running task of the queue gets its priority as its counter.
pub refill-counter :
    (h : Tasks) (ps : List ℕ) (q : ℕ)
    → In q ps
    → is_running (h q).state ≡ true
    → (refill h ps q).counter ≡ (h q).prio
unfolding refill
refill-counter h [] q i run = elim i [ ]
refill-counter h (p ∷ ps) q (inl e) run =
    let h' : Tasks =
      if is_running (h p).state then set_task h p (record (h p) { counter = (h p).prio }) else h in
    ground (arith, refill_done h' ps q)
refill-counter h (p ∷ ps) q (inr i) run =
    let h' : Tasks =
      if is_running (h p).state then set_task h p (record (h p) { counter = (h p).prio }) else h in
    ground (arith, refill-counter h' ps q i)

-- What `pick_next_task` promises: the heaviest running task, with a counter that is not 0, in the
-- heap as it was or with every running task refilled; or none, if no task runs.
pub data Picks (h : Tasks) (ps : List ℕ) : Option (Tasks × Option ℕ) → Type 0 where
  picked :
      (h' : Tasks) (p : ℕ)
      → IsHeaviest h' ps p
      → (h' p).counter ≢ 0
      → (h' ≡ h) ⊎ (h' ≡ refill h ps)
      → Picks h ps (some (h', some p))
  nothing_runs : ((q : ℕ) → In q ps → is_running (h q).state ≡ false) → Picks h ps (some (h, none))

pub needs_refill-some :
    (h : Tasks) (ps : List ℕ) (p : ℕ) → In p ps → needs_refill h ps (some p) ≡ ((h p).counter == 0)
unfolding needs_refill
needs_refill-some h [] p i = elim i [ ]
needs_refill-some h (q ∷ ps) p i = refl

needs_refill-none : (h : Tasks) (ps : List ℕ) → needs_refill h ps none ≡ false
unfolding needs_refill
needs_refill-none h [] = refl
needs_refill-none h (q ∷ ps) = refl

-- A priority of 0 would leave the counter at 0 after a refill.
abbrev pub HavePrio : Tasks → List ℕ → Type 0
HavePrio h ps = (q : ℕ) → In q ps → is_running (h q).state ≡ true → (h q).prio ≢ 0

pub refill-runs :
    (h : Tasks) (ps : List ℕ) (q : ℕ) → is_running (refill h ps q).state ≡ is_running (h q).state
refill-runs h ps q = ap is_running (refill_frame h ps q).0

second_round :
    (rounds : ℕ) (h : Tasks) (ps : List ℕ) (p : ℕ) (r : Option ℕ)
    → HavePrio h ps
    → IsHeaviest h ps p
    → Scanned (refill h ps) ps 0 (some p) r
    → Picks h ps (
        if needs_refill (refill h ps) ps r
        then repick rounds (refill (refill h ps) ps) ps r
        else some (refill h ps, r))
second_round rounds h ps p r prio top (kept none_runs) =
    let none_left = none_runs p top.queued (refill-runs h ps p ∙ top.runs) in absurd (omega arith)
second_round rounds h ps p r prio top (better q top' le) =
    let runs : is_running (h q).state ≡ true = sym (refill-runs h ps q) ∙ top'.runs in
    let positive : (refill h ps q).counter ≢ 0 =
      rw (refill-counter h ps q top'.queued runs) (prio q top'.queued runs) in
    let stop : needs_refill (refill h ps) ps (some q) ≡ false =
      needs_refill-some (refill h ps) ps q top'.queued ∙ ==_ne _ _ positive in
    rw stop (picked (refill h ps) q top' positive (inr refl))

first_round :
    (rounds : ℕ) (h : Tasks) (ps : List ℕ) (r : Option ℕ)
    → HavePrio h ps
    → Scanned h ps 0 none r
    → Picks h ps
        (if needs_refill h ps r then repick (suc rounds) (refill h ps) ps r else some (h, r))
first_round rounds h ps r prio (kept none_runs) = rw (needs_refill-none h ps) (nothing_runs idle)
  where
    idle : (q : ℕ) → In q ps → is_running (h q).state ≡ false
    idle q i = elim (Bool-cases (is_running (h q).state)) [
      | inl run ↦ (let none_left = none_runs q i run in absurd (omega arith))
      | inr not_run ↦ not_run
    ]
first_round rounds h ps r prio (better p top le) = elim (Bool-cases ((h p).counter == 0)) [
  | inl empty ↦ rw (needs_refill-some h ps p top.queued ∙ empty) (
      unfold repick in
      second_round rounds h ps p (scan (refill h ps) ps 0 (some p)) prio top
        (scan-Scanned (refill h ps) ps 0 (some p)))
  | inr left ↦
      rw (needs_refill-some h ps p top.queued ∙ left)
        (picked h p top (λ z. cc (left, (==_iff _ _).1 z)) (inl refl))
]

-- Where every running task has a priority that is not 0, two rounds are enough, and the task picked
-- is the heaviest running one with a counter that is not 0, in the heap as it was or with every
-- running task refilled; none is picked only if no task runs.
pub pick_next_task-Picks :
    (rounds : ℕ) (h : Tasks) (rq : Rq)
    → HavePrio h rq.task_list
    → Picks h rq.task_list (pick_next_task (suc (suc rounds)) h rq)
unfolding pick_next_task repick
pick_next_task-Picks rounds h rq prio =
    first_round rounds h rq.task_list (scan h rq.task_list 0 none) prio
      (scan-Scanned h rq.task_list 0 none)
