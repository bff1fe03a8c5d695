-- ===== src/Sched/Hang.antt =====
-- `pick_next_task` of kernel/task.c when refilling gives no running task a counter.
use oscar_kernel.Common.{ℕ, zero, suc, ◌≡◌, refl, sym, ◌∙◌, true, Option, none, List, ==_iff, arith}
use oscar_kernel.Sched.{Tasks, Rq, is_running, scan, refill, needs_refill, repick, pick_next_task}
use oscar_kernel.Sched.Scan.{In, Scanned, kept, better, scan-Scanned}
use oscar_kernel.Sched.Pick.{refill_frame, refill-counter, refill-runs, needs_refill-some}

-- Some task of the queue runs, and all that run have counter and priority 0.
pub record IsSpent (h : Tasks) (ps : List ℕ) : Type 0 where
  pub someone : ℕ
  pub queued : In someone ps
  pub runs : is_running (h someone).state ≡ true
  pub spent :
      (q : ℕ) → In q ps → is_running (h q).state ≡ true → ((h q).counter ≡ 0) × ((h q).prio ≡ 0)

refill-IsSpent : (h : Tasks) (ps : List ℕ) → IsSpent h ps → IsSpent (refill h ps) ps
refill-IsSpent h ps s = record {
  someone = s.someone;
  queued = s.queued;
  runs = refill-runs h ps s.someone ∙ s.runs;
  spent = λ q i run.
      let run' : is_running (h q).state ≡ true = sym (refill-runs h ps q) ∙ run in
      let (c, p) = s.spent q i run' in
      (refill-counter h ps q i run' ∙ p, (refill_frame h ps q).1 ∙ p);
}

spent-needs_refill :
    (h : Tasks) (ps : List ℕ) (cand r : Option ℕ)
    → IsSpent h ps
    → Scanned h ps 0 cand r
    → needs_refill h ps r ≡ true
spent-needs_refill h ps cand r s (kept none_runs) =
    let none_left = none_runs s.someone s.queued s.runs in absurd (omega arith)
spent-needs_refill h ps cand r s (better p top le) =
    needs_refill-some h ps p top.queued ∙ (==_iff _ _).1 (s.spent p top.queued top.runs).0

repick-none :
    (rounds : ℕ) (h : Tasks) (ps : List ℕ) (cand : Option ℕ)
    → IsSpent h ps
    → repick rounds h ps cand ≡ none
unfolding repick
repick-none zero h ps cand s = refl
repick-none (suc rounds) h ps cand s =
    rw (spent-needs_refill h ps cand (scan h ps 0 cand) s (scan-Scanned h ps 0 cand))
      (repick-none rounds (refill h ps) ps (scan h ps 0 cand) (refill-IsSpent h ps s))

-- On a queue where some task runs and all that run have counter and priority 0, no number of rounds
-- is enough: the `goto repick` is taken for ever.
pub pick_next_task-none :
    (rounds : ℕ) (h : Tasks) (rq : Rq) → IsSpent h rq.task_list → pick_next_task rounds h rq ≡ none
unfolding pick_next_task
pick_next_task-none rounds h rq s = repick-none rounds h rq.task_list none s
