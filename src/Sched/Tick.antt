-- ===== src/Sched/Tick.antt =====
-- `schedule` and the timer tick of kernel/task.c.
use oscar_kernel.Common.{
  ℕ, suc, ◌≡◌, ◌≢◌, refl, sym, ◌∙◌, false, not, ◌&&◌, Option, none, some, ◌==◌, arith, Bool-cases,
  inl, inr, ◌⊎◌,
}
use mathlib.Core.Option.{none-ne-some, some-injective}
use oscar_kernel.Sched.{
  Tasks, Rq, is_running, pick_next_task, same_task, next_or_idle, context_switch, switch_after,
  schedule, count_down, tick_current, task_timer_tick, refill,
}
use oscar_kernel.Sched.Scan.{In, IsHeaviest}
use oscar_kernel.Sched.Pick.{Picks, picked, nothing_runs, HavePrio, pick_next_task-Picks}

-- After the switch the new task is the current one, and nothing else of the queue has changed.
context_switch-current :
    (rq : Rq) (next : ℕ)
    → ((context_switch rq rq.current next).current ≡ some next)
      × ((context_switch rq rq.current next).task_list ≡ rq.task_list)
      × ((context_switch rq rq.current next).idle ≡ rq.idle)
      × ((context_switch rq rq.current next).length ≡ rq.length)
unfolding context_switch same_task
context_switch-current rq next = ground arith

-- What a call of `schedule` does to the processor's run queue and the tasks.
pub data Scheduled (h : Tasks) (rq : Rq) : Option (Tasks × Rq) → Type 0 where
  switched :
      (h' : Tasks) (rq' : Rq) (p : ℕ)
      → rq'.current ≡ some p
      → rq'.task_list ≡ rq.task_list
      → IsHeaviest h' rq.task_list p
      → (h' p).counter ≢ 0
      → (h' ≡ h) ⊎ (h' ≡ refill h rq.task_list)
      → Scheduled h rq (some (h', rq'))
  idles :
      (rq' : Rq)
      → rq'.current ≡ some rq.idle
      → rq'.task_list ≡ rq.task_list
      → ((q : ℕ) → In q rq.task_list → is_running (h q).state ≡ false)
      → Scheduled h rq (some (h, rq'))

-- What a timer tick does: it counts the current task down, or it schedules because that task is the
-- idle one or has used its time up.
pub data Ticked (h : Tasks) (rq : Rq) : Option (Tasks × Rq) → Type 0 where
  counted :
      (p : ℕ)
      → rq.current ≡ some p
      → p ≢ rq.idle
      → (h p).counter ≢ 0
      → Ticked h rq (some (count_down h p, rq))
  scheduled :
      (r : Option (Tasks × Rq))
      → ((p : ℕ) → rq.current ≡ some p → (p ≡ rq.idle) ⊎ ((h p).counter ≡ 0))
      → Scheduled h rq r
      → Ticked h rq r

switch_after-Scheduled :
    (h : Tasks) (rq : Rq) (r : Option (Tasks × Option ℕ))
    → Picks h rq.task_list r
    → Scheduled h rq (switch_after rq r)
unfolding switch_after next_or_idle
switch_after-Scheduled h rq r (picked h' p top left refilled) =
    let c = context_switch-current rq p in
    switched h' (context_switch rq rq.current p) p c.0 c.1 top left refilled
switch_after-Scheduled h rq r (nothing_runs all_idle) =
    let c = context_switch-current rq rq.idle in
    idles (context_switch rq rq.current rq.idle) c.0 c.1 all_idle

pub schedule-Scheduled :
    (rounds : ℕ) (h : Tasks) (rq : Rq)
    → HavePrio h rq.task_list
    → Scheduled h rq (schedule (suc (suc rounds)) h rq)
unfolding schedule
schedule-Scheduled rounds h rq prio =
    switch_after-Scheduled h rq (pick_next_task (suc (suc rounds)) h rq)
      (pick_next_task-Picks rounds h rq prio)

-- A task that may not go on is the idle one or has no time left.
may_not_go_on :
    (h : Tasks) (rq : Rq) (p q : ℕ)
    → (not (p == rq.idle) && not ((h p).counter == 0)) ≡ false
    → q ≡ p
    → (q ≡ rq.idle) ⊎ ((h q).counter ≡ 0)
may_not_go_on h rq p q f e = rw e (ground arith)

tick_current-Ticked :
    (rounds : ℕ) (h : Tasks) (rq : Rq) (cur : Option ℕ)
    → HavePrio h rq.task_list
    → rq.current ≡ cur
    → Ticked h rq (tick_current (suc (suc rounds)) h rq cur)
unfolding tick_current
tick_current-Ticked rounds h rq none prio e =
    scheduled _ (λ p q. absurd (none-ne-some p (sym e ∙ q))) (schedule-Scheduled rounds h rq prio)
tick_current-Ticked rounds h rq (some p) prio e =
    elim (Bool-cases (not (p == rq.idle) && not ((h p).counter == 0))) [
      | inl go_on ↦ rw go_on (counted p e (ground arith) (ground arith))
      | inr used_up ↦ rw used_up (
          scheduled _ (λ q i. may_not_go_on h rq p q used_up (some-injective q p (sym i ∙ e)))
            (schedule-Scheduled rounds h rq prio))
    ]

-- Where every running task has a priority, a timer tick returns. It takes one from the counter of the
-- current task if that is not the idle one and its counter is not 0. Otherwise the heaviest running
-- task becomes current, with a counter that is not 0, or the idle task if none runs.
pub task_timer_tick-Ticked :
    (rounds : ℕ) (h : Tasks) (rq : Rq)
    → HavePrio h rq.task_list
    → Ticked h rq (task_timer_tick (suc (suc rounds)) h rq)
unfolding task_timer_tick
task_timer_tick-Ticked rounds h rq prio = tick_current-Ticked rounds h rq rq.current prio refl
