-- ===== src/Sched/Queue.antt =====
-- The run queues of kernel/task.c: their lengths, and the processor that a new task goes to.
use oscar_kernel.Common.{
  ℕ, zero, suc, ◌+◌, ◌≡◌, ◌≢◌, refl, ◌∙◌, Option, none, some, List, [], ◌∷◌, ◌++◌, ==_ne, arith,
  length, length-append, get_elem?, All,
}
use oscar_kernel.Sched.{
  Rq, Kernel, on_rq, enqueue, link, unlink, create_task, migrate_task, cpu_min_load,
}

-- The length field counts the list.
abbrev pub IsCounted : Rq → Type 0
IsCounted rq = rq.length ≡ length rq.task_list

on_rq-All :
    {P : Rq → Type 0} (f : Rq → Rq)
    → ((rq : Rq) → P rq → P (f rq))
    → (i : ℕ) (rqs : List Rq) → All P rqs
    → All P (on_rq f i rqs)
unfolding on_rq
on_rq-All f keep i [] h = tt
on_rq-All f keep zero (rq ∷ rqs) h = (keep rq h.0, h.1)
on_rq-All f keep (suc i) (rq ∷ rqs) h = (h.0, on_rq-All f keep i rqs h.1)

enqueue-IsCounted : (p : ℕ) (rq : Rq) → IsCounted rq → IsCounted (enqueue p rq)
unfolding enqueue
enqueue-IsCounted p rq h = omega (arith, length-append rq.task_list (p ∷ []))

-- Where every run queue's `length` is the length of its list, it still is after a task has been
-- created.
pub create_task-IsCounted :
    (k : Kernel) (prio stack kstack_size : ℕ) (cpu : Option ℕ)
    → All IsCounted k.rq_list
    → All IsCounted (create_task k prio stack kstack_size cpu).rq_list
unfolding create_task
create_task-IsCounted k prio stack kstack_size none h =
    on_rq-All (enqueue k.pid) (enqueue-IsCounted k.pid) (cpu_min_load k) k.rq_list h
create_task-IsCounted k prio stack kstack_size (some i) h =
    on_rq-All (enqueue k.pid) (enqueue-IsCounted k.pid) i k.rq_list h

get-on_rq :
    (f : Rq → Rq) (i : ℕ) (rqs : List Rq) (rq : Rq)
    → get_elem? rqs i ≡ some rq
    → get_elem? (on_rq f i rqs) i ≡ some (f rq)
unfolding on_rq
get-on_rq f i [] rq e = cc
get-on_rq f zero (x ∷ rqs) rq e = ground arith
get-on_rq f (suc i) (x ∷ rqs) rq e = get-on_rq f i rqs rq e

get-on_rq_ne :
    (f : Rq → Rq) (i j : ℕ) (rqs : List Rq) → i ≢ j → get_elem? (on_rq f i rqs) j ≡ get_elem? rqs j
unfolding on_rq
get-on_rq_ne f i j [] ne = refl
get-on_rq_ne f zero zero (x ∷ rqs) ne = absurd (ne refl)
get-on_rq_ne f zero (suc j) (x ∷ rqs) ne = refl
get-on_rq_ne f (suc i) zero (x ∷ rqs) ne = refl
get-on_rq_ne f (suc i) (suc j) (x ∷ rqs) ne = get-on_rq_ne f i j rqs (omega arith)

-- Moving a task to another processor, whose run queue is there, adds it at the end of that
-- processor's queue and leaves the queue's `length` as it was.
pub migrate_task_target :
    (k : Kernel) (p cpu : ℕ) (rq : Rq)
    → get_elem? k.rq_list cpu ≡ some rq
    → (k.task p).cpu ≢ cpu
    → (((migrate_task k p cpu).task p).cpu ≡ cpu)
      × (get_elem? (migrate_task k p cpu).rq_list cpu
          ≡ some (record rq { task_list = rq.task_list ++ p ∷ [] }))
unfolding migrate_task link
migrate_task_target k p cpu rq e ne = rw (==_ne _ _ ne) (
  ground arith,
  get-on_rq (link p) cpu (on_rq (unlink p) (k.task p).cpu k.rq_list) rq
      (get-on_rq_ne (unlink p) (k.task p).cpu cpu k.rq_list ne ∙ e),
)

-- Where the `length` of another processor's run queue was right before a task is moved there, it is
-- one short after the move.
pub migrate_task_miscounts :
    (k : Kernel) (p cpu : ℕ) (rq : Rq)
    → get_elem? k.rq_list cpu ≡ some rq
    → IsCounted rq
    → (k.task p).cpu ≢ cpu
    → (after : Rq) × (get_elem? (migrate_task k p cpu).rq_list cpu ≡ some after)
      × (length after.task_list ≡ after.length + 1)
migrate_task_miscounts k p cpu rq e counted ne = (
  record rq { task_list = rq.task_list ++ p ∷ [] },
  (migrate_task_target k p cpu rq e ne).1,
  omega (arith, length-append rq.task_list (p ∷ [])),
)
