-- ===== src/Jobs/Queue/OneWorker.antt =====
-- One job runs at a time, whatever the interleaving.
use packrat.Prelude.{
  ℕ, ◌+◌, ◌≤◌, ◌≡◌, ◌≢◌, refl, true, Option, some, List, [], ◌∷◌, arith, All, if◌then◌else◌, inl,
  inr, Bool-cases,
}
use packrat.Jobs.Row.{Job, running, is_running}
use packrat.Jobs.Table.{top_priority}
use packrat.Jobs.Table.Update.{ids, Distinct}
use packrat.Jobs.Queue.{Queue, cancel_all_queued, shutdown}
use packrat.Jobs.Queue.Steps.{Step, Reach, empty_queue, Reach-induction}
use packrat.Jobs.Queue.Invariant.{RunsOnly, NotRunning, worker_job, Inv, update-Inv, pump-Inv}
use packrat.Jobs.Queue.Calls.{
  create_job_row-Inv, release-Inv, submit-Inv, load_config-Inv, persist_progress-Inv,
  record_outcome-Inv, wind_up-Inv, cancel-Inv, prioritize-Inv, cancel_rows-Inv, restart-Inv,
}

Step-Inv : (q s : Queue) → Step q s → Inv q → Inv s
Step-Inv q s (Step.submitted now type params q' k e) h = submit-Inv now type params q s k e h
Step-Inv q s (Step.pumped now) h = pump-Inv now q h
Step-Inv q s (Step.configured now problem k at) h = load_config-Inv now problem k q at h
Step-Inv q s (Step.progressed k n total at) h = persist_progress-Inv k n total q h
Step-Inv q s (Step.touched k reviews merges at) h = record {
  distinct = h.distinct;
  runs_only = h.runs_only;
  slot = h.slot;
  settled = h.settled;
}
Step-Inv q s (Step.ended now out result k at) h = record_outcome-Inv now out result k q at h
Step-Inv q s (Step.filed now type params fresh) h = create_job_row-Inv now type params q h
Step-Inv q s (Step.released k at) h = release-Inv k q at h
Step-Inv q s (Step.raised_priority k j found waits) h =
    update-Inv q k (λ j. record j { priority = top_priority q.jobs + 1 }) (λ j. refl) (λ j r. r) h
Step-Inv q s (Step.wound_up now k at) h = wind_up-Inv now k q at h
Step-Inv q s (Step.cancelled now k) h = cancel-Inv now k q h
Step-Inv q s (Step.prioritized now k) h = prioritize-Inv now k q h
Step-Inv q s (Step.cancelled_all now) h = unfold cancel_all_queued in cancel_rows-Inv now q.jobs q h
Step-Inv q s Step.shut_down h =
    unfold shutdown in
    record { distinct = h.distinct; runs_only = h.runs_only; slot = h.slot; settled = h.settled }
Step-Inv q s (Step.streamed subs) h = record {
  distinct = h.distinct;
  runs_only = h.runs_only;
  slot = h.slot;
  settled = h.settled;
}
Step-Inv q s (Step.restarted now) h = restart-Inv now q h

unfoldable pub count_running : List Job → ℕ
count_running [] = 0
count_running (j ∷ js) = (if is_running j.status then 1 else 0) + count_running js

count-running_none : (js : List Job) → All NotRunning js → count_running js ≡ 0
unfolding count_running
count-running_none [] h = refl
count-running_none (j ∷ js) h = ground (arith, count-running_none js h.1)

-- Where the slot is this row's, no other row is running.
only_head :
    (slot : Option ℕ) {k : ℕ} (js : List Job)
    → slot ≡ some k
    → All (λ i. k ≢ i) (ids js)
    → All (RunsOnly slot) js
    → All NotRunning js
only_head slot [] e d h = tt
only_head slot (j ∷ js) e d h = (λ r. d.0 (cc (h.0 r, e)), only_head slot js e d.1 h.1)

status_running : (j : Job) → is_running j.status ≡ true → j.status ≡ running
status_running j e = ground arith

count-running_le :
    (slot : Option ℕ) (js : List Job)
    → Distinct (ids js)
    → All (RunsOnly slot) js
    → count_running js ≤ 1
unfolding count_running
count-running_le slot [] d h = omega arith
count-running_le slot (j ∷ js) d h = elim (Bool-cases (is_running j.status)) [
  | inl yes_running ↦ rw yes_running (
      omega (
        arith,
        count-running_none js (only_head slot js (h.0 (status_running j yes_running)) d.0 h.1),
      ))
  | inr other ↦ rw other (omega (arith, count-running_le slot js d.1 h.1))
]

empty-Inv : Inv empty_queue
empty-Inv = record { distinct = tt; runs_only = tt; slot = refl; settled = tt }

-- In every state that is reached from the empty queue, by any interleaving of the calls, at most
-- one row is running; and the slot, the worker thread and that row name the same job.
pub one_running :
    (q : Queue)
    → Reach empty_queue q
    → (count_running q.jobs ≤ 1)
      × (q.running_job_id ≡ worker_job q.worker)
      × All (RunsOnly q.running_job_id) q.jobs
one_running q r =
    let h = Reach-induction Inv Step-Inv empty_queue q empty-Inv r in
    (count-running_le q.running_job_id q.jobs h.distinct h.runs_only, h.slot, h.runs_only)
