-- ===== src/Sched/Load.antt =====
-- `cpu_min_load` of kernel/task.c: the least loaded processor that is not offline.
use oscar_kernel.Common.{
  ℕ, zero, suc, ◌+◌, ◌-◌, ◌≤◌, ◌<◌, ◌^◌, ◌≡◌, ◌≢◌, refl, not, ◌&&◌, List, [], ◌∷◌, inl, inr, ltb,
  ◌==◌, arith, Bool-cases,
}
use oscar_kernel.Sched.{Rq, Kernel, min_load_from, cpu_min_load, cpu_status_offline}

-- Processor `i` of the two lists is not offline, and its run queue has this length.
abbrev pub IsOnline : List Rq → List ℕ → ℕ → ℕ → Type 0
IsOnline [] status i load = ⊥
IsOnline (rq ∷ rqs) [] i load = ⊥
IsOnline (rq ∷ rqs) (code ∷ status) zero load = (code ≢ cpu_status_offline) × (rq.length ≡ load)
IsOnline (rq ∷ rqs) (code ∷ status) (suc i) load = IsOnline rqs status i load

-- What the loop returns from its three variables.
pub data LeastLoad (rqs : List Rq) (status : List ℕ) (i min_len best : ℕ) : ℕ → Type 0 where
  kept :
      ((j load : ℕ) → IsOnline rqs status j load → min_len ≤ load)
      → LeastLoad rqs status i min_len best best
  least :
      (j load r : ℕ)
      → r ≡ i + j
      → IsOnline rqs status j load
      → load < min_len
      → ((j' load' : ℕ) → IsOnline rqs status j' load' → load ≤ load')
      → LeastLoad rqs status i min_len best r

LeastLoad-skip :
    {rqs : List Rq} {status : List ℕ} {i min_len best r : ℕ} (rq : Rq) (code : ℕ)
    → (code ≢ cpu_status_offline → min_len ≤ rq.length)
    → LeastLoad rqs status (i + 1) min_len best r
    → LeastLoad (rq ∷ rqs) (code ∷ status) i min_len best r
LeastLoad-skip {rqs} {status} {min_len = min_len} rq code heavy (kept all) = kept go
  where
    go : (j load : ℕ) → IsOnline (rq ∷ rqs) (code ∷ status) j load → min_len ≤ load
    go zero load h = rw (← h.1) (heavy h.0)
    go (suc j) load h = all j load h
LeastLoad-skip {rqs} {status} {min_len = min_len} rq code heavy (least j load r e on lt all) =
    least (suc j) load r (omega arith) on lt go
  where
    go : (j' load' : ℕ) → IsOnline (rq ∷ rqs) (code ∷ status) j' load' → load ≤ load'
    go zero load' h = (let m = heavy h.0 in omega (arith, h.1))
    go (suc j') load' h = all j' load' h

LeastLoad-take :
    {rqs : List Rq} {status : List ℕ} {i min_len best r : ℕ} (rq : Rq) (code : ℕ)
    → code ≢ cpu_status_offline
    → rq.length < min_len
    → LeastLoad rqs status (i + 1) rq.length i r
    → LeastLoad (rq ∷ rqs) (code ∷ status) i min_len best r
LeastLoad-take {rqs} {status} {i} rq code online lt (kept all) =
    least zero rq.length i (omega arith) (online, refl) lt go
  where
    go : (j load : ℕ) → IsOnline (rq ∷ rqs) (code ∷ status) j load → rq.length ≤ load
    go zero load h = omega (arith, h.1)
    go (suc j) load h = all j load h
LeastLoad-take {rqs} {status} rq code online lt (least j load r e on lt' all) =
    least (suc j) load r (omega arith) on (omega arith) go
  where
    go : (j' load' : ℕ) → IsOnline (rq ∷ rqs) (code ∷ status) j' load' → load ≤ load'
    go zero load' h = omega (arith, h.1)
    go (suc j') load' h = all j' load' h

min_load_from-LeastLoad :
    (rqs : List Rq) (status : List ℕ) (i min_len best : ℕ)
    → LeastLoad rqs status i min_len best (min_load_from rqs status i min_len best)
unfolding min_load_from
min_load_from-LeastLoad [] status i min_len best = kept (λ j load h. absurd h)
min_load_from-LeastLoad (rq ∷ rqs) [] i min_len best = kept (λ j load h. absurd h)
min_load_from-LeastLoad (rq ∷ rqs) (st ∷ status) i min_len best =
    elim (Bool-cases (not (st == cpu_status_offline) && ltb rq.length min_len)) [
      | inl take ↦ rw take (
          LeastLoad-take rq st (ground arith) (ground arith)
            (min_load_from-LeastLoad rqs status (i + 1) rq.length i))
      | inr skip ↦ rw skip (
          LeastLoad-skip rq st (λ on. ground arith)
            (min_load_from-LeastLoad rqs status (i + 1) min_len best))
    ]

-- Where some processor is not offline and the run queues are shorter than the largest `u64`, the
-- processor chosen is not offline, and no processor that is not offline has a shorter run queue.
pub cpu_min_load_least :
    (k : Kernel) (i load : ℕ)
    → IsOnline k.rq_list k.status i load
    → load < 2 ^ 64 - 1
    → (least_load : ℕ) × IsOnline k.rq_list k.status (cpu_min_load k) least_load
      × ((j load' : ℕ) → IsOnline k.rq_list k.status j load' → least_load ≤ load')
unfolding cpu_min_load
cpu_min_load_least k i load on small =
    go (cpu_min_load k) (min_load_from-LeastLoad k.rq_list k.status 0 (2 ^ 64 - 1) 0)
  where
    go :
        (r : ℕ)
        → LeastLoad k.rq_list k.status 0 (2 ^ 64 - 1) 0 r
        → (least_load : ℕ) × IsOnline k.rq_list k.status r least_load
          × ((j load' : ℕ) → IsOnline k.rq_list k.status j load' → least_load ≤ load')
    go r (kept all) = (let big = all i load on in absurd (omega arith))
    go r (least j load' r' e on' lt all) =
        (load', let same : j ≡ r = omega arith in rw (← same) on', all)
