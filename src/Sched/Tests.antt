-- ===== src/Sched/Tests.antt =====
-- Runs and witnesses for kernel/task.c: tasks 0 (idle), 1 with 2 ticks left and 2 with 5; processor 0
-- runs task 1, processor 1 only its idle task.
use oscar_kernel.Common.{
  ℕ, suc, ◌≡◌, refl, some, [], ◌∷◌, get_elem?, ◌==◌, if◌then◌else◌, inl, inr, arith,
}
use oscar_kernel.Sched.{Tasks, Task, Rq, Kernel, pick_next_task, task_timer_tick, migrate_task}
use oscar_kernel.Sched.TaskState.{running}
use oscar_kernel.Sched.Pick.{Picks, HavePrio, pick_next_task-Picks}
use oscar_kernel.Sched.Hang.{IsSpent}
use oscar_kernel.Sched.Tick.{Ticked, task_timer_tick-Ticked}
use oscar_kernel.Sched.Queue.{migrate_task_target}

abbrev task_with : ℕ → ℕ → ℕ → Task
task_with id prio counter = record {
  stack = 0x1000;
  sp = 0x1e00;
  state = running;
  id = id;
  cpu = 0;
  prio = prio;
  counter = counter;
}

abbrev tasks : Tasks
tasks p = if p == 2 then task_with 2 4 5 else task_with p 3 2

abbrev spent_tasks : Tasks
spent_tasks p = task_with p 0 0

abbrev rq0 : Rq
rq0 = record { length = 2; current = some 1; idle = 0; task_list = 1 ∷ 2 ∷ [] }

abbrev rq1 : Rq
rq1 = record { length = 0; current = some 0; idle = 0; task_list = [] }

abbrev kernel : Kernel
kernel = record { task = tasks; rq_list = rq0 ∷ rq1 ∷ []; pid = 3; status = 1 ∷ 1 ∷ [] }

tasks-HavePrio : HavePrio tasks (1 ∷ 2 ∷ [])
tasks-HavePrio q (inl e) run = ground arith
tasks-HavePrio q (inr (inl e)) run = ground arith
tasks-HavePrio q (inr (inr i)) run = elim i [ ]

pick_next_task-Picks_example : Picks tasks (1 ∷ 2 ∷ []) (pick_next_task (suc (suc 0)) tasks rq0)
pick_next_task-Picks_example = pick_next_task-Picks 0 tasks rq0 tasks-HavePrio

spent : IsSpent spent_tasks (1 ∷ 2 ∷ [])
spent = record { someone = 1; queued = inl refl; runs = refl; spent = λ q i run. (refl, refl) }

task_timer_tick-Ticked_example : Ticked tasks rq0 (task_timer_tick (suc (suc 0)) tasks rq0)
task_timer_tick-Ticked_example = task_timer_tick-Ticked 0 tasks rq0 tasks-HavePrio

migrate_task_target_example :
    (((migrate_task kernel 2 1).task 2).cpu ≡ 1)
    × (get_elem? (migrate_task kernel 2 1).rq_list 1 ≡ some (record rq1 { task_list = 2 ∷ [] }))
migrate_task_target_example = migrate_task_target kernel 2 1 rq1 refl (omega arith)
