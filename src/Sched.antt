-- ===== src/Sched.antt =====
-- kernel/task.c with include/task.h: run queues, the choice of the next task, the timer tick.
-- Tasks are shared by pointer: a task is named by its id, the `pid` it is created with, which stands
-- for the pointer, and `task` is the heap of tasks. `int` fields are their 32-bit patterns. A run
-- queue's lock spans each change of it, so a call is one step. The register and address-space switch
-- of `switch_mm` and `switch_to` is left out: a switch is the change of `current`.
pub mod Scan
pub mod Pick
pub mod Hang
pub mod Tick
pub mod Queue
pub mod Load
pub mod Tests
use oscar_kernel.Common.{
  ℕ, zero, suc, ◌+◌, ◌-◌, ◌*◌, ◌%◌, ◌^◌, Bool, true, false, not, ◌&&◌, Option, none, some, List, [],
  ◌∷◌, ◌++◌, length, get_elem?, set, ltb, leb, ◌==◌, if◌then◌else◌,
}

pub data TaskState : Type 0 where
  running sleeping killed zombie : TaskState

abbrev pub is_running : TaskState → Bool
is_running running = true
is_running sleeping = false
is_running killed = false
is_running zombie = false

pub record Task : Type 0 where
  pub stack : ℕ
  pub sp : ℕ
  pub state : TaskState
  pub id : ℕ
  pub cpu : ℕ
  pub prio : ℕ
  pub counter : ℕ

abbrev pub Tasks : Type 0
Tasks = ℕ → Task

abbrev pub set_task : Tasks → ℕ → Task → Tasks
set_task h p t q = if q == p then t else h q

pub record Rq : Type 0 where
  pub length : ℕ
  pub current : Option ℕ
  pub idle : ℕ
  pub task_list : List ℕ

-- `int` to `u64`: a negative number becomes a large one.
abbrev pub sign_extend : ℕ → ℕ
sign_extend w = if ltb w (2 ^ 31) then w else w + (2 ^ 64 - 2 ^ 32)

-- The counter as the scheduler compares it.
unfoldable pub weight : Task → ℕ
weight t = sign_extend t.counter

-- The first loop of `pick_next_task`: `max_counter` and `cand_task`.
pub scan : Tasks → List ℕ → ℕ → Option ℕ → Option ℕ
scan h [] max_counter cand = cand
scan h (p ∷ ps) max_counter cand =
    let better = is_running (h p).state && leb max_counter (weight (h p)) in
    scan h ps (if better then weight (h p) else max_counter) (if better then some p else cand)

-- The second loop: every running task gets its priority as its counter.
pub refill : Tasks → List ℕ → Tasks
refill h [] = h
refill h (p ∷ ps) =
    refill
      (if is_running (h p).state then set_task h p (record (h p) { counter = (h p).prio }) else h)
      ps

pub needs_refill : Tasks → List ℕ → Option ℕ → Bool
needs_refill h [] cand = false
needs_refill h (p ∷ ps) none = false
needs_refill h (p ∷ ps) (some c) = (h c).counter == 0

-- From the label `repick`, with the rounds left: `none` means that the rounds ran out.
pub repick : ℕ → Tasks → List ℕ → Option ℕ → Option (Tasks × Option ℕ)
unfolding scan refill needs_refill
repick zero h ps cand = none
repick (suc rounds) h ps cand =
    let c = scan h ps 0 cand in
    let again = repick rounds (refill h ps) ps c in
    if needs_refill h ps c then again else some (h, c)

unfoldable pub pick_next_task : ℕ → Tasks → Rq → Option (Tasks × Option ℕ)
unfolding repick
pick_next_task rounds h rq = repick rounds h rq.task_list none

same_task : Option ℕ → ℕ → Bool
same_task none n = false
same_task (some p) n = p == n

pub context_switch : Rq → Option ℕ → ℕ → Rq
unfolding same_task
context_switch rq prev next = if same_task prev next then rq else record rq { current = some next }

next_or_idle : Rq → Option ℕ → ℕ
next_or_idle rq none = rq.idle
next_or_idle rq (some p) = p

pub switch_after : Rq → Option (Tasks × Option ℕ) → Option (Tasks × Rq)
unfolding context_switch next_or_idle
switch_after rq none = none
switch_after rq (some (h, next)) = some (h, context_switch rq rq.current (next_or_idle rq next))

-- `schedule` on the processor whose run queue is given.
pub schedule : ℕ → Tasks → Rq → Option (Tasks × Rq)
unfolding switch_after pick_next_task
schedule rounds h rq = switch_after rq (pick_next_task rounds h rq)

pub task_exit : ℕ → Tasks → Rq → ℕ → Option (Tasks × Rq)
unfolding schedule
task_exit rounds h rq p = schedule rounds (set_task h p (record (h p) { state = killed })) rq

-- `counter--` on an `int`.
pub count_down : Tasks → ℕ → Tasks
count_down h p = set_task h p (record (h p) { counter = ((h p).counter + 2 ^ 32 - 1) % 2 ^ 32 })

pub tick_current : ℕ → Tasks → Rq → Option ℕ → Option (Tasks × Rq)
unfolding schedule count_down
tick_current rounds h rq none = schedule rounds h rq
tick_current rounds h rq (some p) =
    if not (p == rq.idle) && not ((h p).counter == 0)
    then some (count_down h p, rq)
    else schedule rounds h rq

pub task_timer_tick : ℕ → Tasks → Rq → Option (Tasks × Rq)
unfolding tick_current
task_timer_tick rounds h rq = tick_current rounds h rq rq.current

-- The state behind `rq_list`, `pid` and the processors' `status`, a list entry for each processor.
pub record Kernel : Type 0 where
  pub task : Tasks
  pub rq_list : List Rq
  pub pid : ℕ
  pub status : List ℕ

abbrev pub cpu_status_offline : ℕ
cpu_status_offline = 0

-- `stack` is what `kmalloc` returned for the stack.
pub new_task : ℕ → ℕ → ℕ → ℕ → ℕ → Task
new_task pid prio stack kstack_size cpu = record {
  stack = stack;
  sp = (stack + kstack_size + 2 ^ 64 - 0x200) % 2 ^ 64;
  state = running;
  id = pid;
  cpu = cpu;
  prio = prio;
  counter = prio;
}

-- The loop of `cpu_min_load` over the processors from index `i`: `min_len` and `min_cpu_idx`.
pub min_load_from : List Rq → List ℕ → ℕ → ℕ → ℕ → ℕ
min_load_from [] status i min_len min_cpu_idx = min_cpu_idx
min_load_from (rq ∷ rqs) [] i min_len min_cpu_idx = min_cpu_idx
min_load_from (rq ∷ rqs) (st ∷ status) i min_len min_cpu_idx =
    let better = not (st == cpu_status_offline) && ltb rq.length min_len in
    min_load_from rqs status (i + 1) (if better then rq.length else min_len)
      (if better then i else min_cpu_idx)

-- `min_len` starts as the `int` -1, which compares as the largest `u64`.
pub cpu_min_load : Kernel → ℕ
unfolding min_load_from
cpu_min_load k = min_load_from k.rq_list k.status 0 (2 ^ 64 - 1) 0

-- `list_add_tail` and `length++` on one run queue.
pub enqueue : ℕ → Rq → Rq
enqueue p rq = record rq { length = rq.length + 1; task_list = rq.task_list ++ p ∷ [] }

pub on_rq : (Rq → Rq) → ℕ → List Rq → List Rq
on_rq f i [] = []
on_rq f zero (rq ∷ rqs) = f rq ∷ rqs
on_rq f (suc i) (rq ∷ rqs) = rq ∷ on_rq f i rqs

-- `cpu` is `none` for the argument -1. `__create_task` writes `cpu` into the task, and with -1 the
-- chosen processor replaces it.
pub create_task : Kernel → ℕ → ℕ → ℕ → Option ℕ → Kernel
unfolding new_task cpu_min_load on_rq enqueue
create_task k prio stack kstack_size cpu =
    let c : ℕ = elim cpu [ none ↦ cpu_min_load k | some i ↦ i ] in
    record k {
      task = set_task k.task k.pid (new_task k.pid prio stack kstack_size c);
      rq_list = on_rq (enqueue k.pid) c k.rq_list;
      pid = k.pid + 1;
    }

-- `list_del`, which takes the entry out of whichever list holds it.
pub remove : ℕ → List ℕ → List ℕ
remove p [] = []
remove p (q ∷ qs) = if q == p then qs else q ∷ remove p qs

unlink : ℕ → Rq → Rq
unfolding remove
unlink p rq = record rq { task_list = remove p rq.task_list }

link : ℕ → Rq → Rq
link p rq = record rq { task_list = rq.task_list ++ p ∷ [] }

pub migrate_task : Kernel → ℕ → ℕ → Kernel
unfolding unlink link on_rq
migrate_task k p cpu =
    let t = k.task p in
    if t.cpu == cpu then k else record k {
      task = set_task k.task p (record t { cpu = cpu });
      rq_list = on_rq (link p) cpu (on_rq (unlink p) t.cpu k.rq_list);
    }
