-- ===== src/Jobs/Queue/Calls.antt =====
-- Each call keeps the invariant of the queue.
use packrat.Prelude.{
  ℕ, suc, ◌+◌, ◌≡◌, ◌≢◌, refl, ap, Option, none, some, List, [], ◌∷◌, ◌++◌, arith, All, All-imp,
  All-snoc, inl, inr, ◌∙◌, ◌&&◌,
}
use mathlib.Core.Path.{subst}
use mathlib.Core.List.{map-append}
use Prim.Native.String.{String}
use packrat.Jobs.Row.{
  Job, JobType, JobStatus, running, done, error, cancelled, interrupted, JobError, Params,
  is_queued,
}
use packrat.Jobs.Table.{find_job, update_job, max_id, top_priority}
use packrat.Jobs.Table.Update.{ids, Distinct, ids-update, All-update, max_id-bound}
use packrat.Jobs.Queue.{
  Queue, idle, launched, handling, recorded, close_subscribers, finish, finish_row, Outcome,
  returned, cancelled_error, exception, load_config, record_outcome, release, wind_up,
  create_job_row, submit, persist_progress, cancel, prioritize, cancel_rows, cancel_one, cancel_row,
  same_slot, has_event, drop_queued, bump,
}
use packrat.Jobs.Reconcile.{reconcile_on_startup, reconcile_jobs}
use packrat.Jobs.Queue.Pumping.{submit_cases}
use packrat.Jobs.Queue.Steps.{restart}
use packrat.Jobs.Queue.Invariant.{
  RunsOnly, NotRunning, worker_job, Settled, Inv, Inv-if, Inv-if_fst, wrong_slot, Settled-snoc,
  update-Inv, broadcast-Inv, close_subscribers-Inv, pump-Inv,
}

pub Distinct-snoc :
    (ks : List ℕ) (k : ℕ) → All (λ i. i ≢ k) ks → Distinct ks → Distinct (ks ++ k ∷ [])
Distinct-snoc [] k new h = (tt, tt)
Distinct-snoc (i ∷ ks) k new h =
    (All-snoc (λ x. i ≢ x) ks k h.0 new.0, Distinct-snoc ks k new.1 h.1)

pub create_job_row-Inv :
    (now : ℕ) (type : JobType) (params : Params) (q : Queue)
    → Inv q
    → Inv (create_job_row now type params q)
unfolding create_job_row
create_job_row-Inv now type params q h = record {
  distinct = rw map-append (
      Distinct-snoc (ids q.jobs) (suc (max_id q.jobs))
        (All-imp (ids q.jobs) (λ i b. omega arith) (max_id-bound q.jobs)) h.distinct);
  runs_only = All-snoc (RunsOnly q.running_job_id) q.jobs _ h.runs_only (λ e. cc);
  slot = h.slot;
  settled = Settled-snoc q.worker q.jobs _ (λ e. cc) h.settled;
}

pub submit-Inv :
    (now : ℕ) (type : JobType) (params : Params) (q q' : Queue) (k : ℕ)
    → submit now type params q ≡ some (q', k)
    → Inv q
    → Inv q'
submit-Inv now type params q q' k e h = elim (submit_cases now type params q e) [
  | inl same ↦ rw same h
  | inr (new, _, _) ↦ rw new (pump-Inv now _ (create_job_row-Inv now type params q h))
]

-- The job of the worker is finished: nothing is running any more.
pub record-Inv :
    (now k : ℕ) (status : JobStatus) (err : Option JobError) (result : Option String) (q : Queue)
    → worker_job q.worker ≡ some k
    → status ≢ running
    → Inv q
    → Inv (finish now k status err result (record q { worker = recorded k }))
unfolding finish
record-Inv now k status err result q at n h =
    let f = finish_row now status err result in
    record {
      distinct = rw (ids-update k f q.jobs (λ j. refl)) h.distinct;
      runs_only = All-update k f q.jobs (λ j _ _ r. absurd (n r)) (λ j _ p. p) h.runs_only;
      slot = h.slot ∙ at;
      settled =
          All-update k f q.jobs (λ j _ _. n) (λ j ne p r. ne (cc (p r, h.slot, at))) h.runs_only;
    }

pub load_config-Inv :
    (now : ℕ) (problem : Option String) (k : ℕ) (q : Queue)
    → q.worker ≡ launched k
    → Inv q
    → Inv (load_config now problem k q)
unfolding load_config
load_config-Inv now none k q at h = broadcast-Inv _ _ (record {
  distinct = h.distinct;
  runs_only = h.runs_only;
  slot = h.slot ∙ ap worker_job at;
  settled = tt;
})
load_config-Inv now (some message) k q at h =
    broadcast-Inv _ _ (record-Inv now k error _ none q (ap worker_job at) (λ e. cc) h)

pub persist_progress-Inv :
    (k n : ℕ) (total : Option ℕ) (q : Queue) → Inv q → Inv (persist_progress k n total q)
unfolding persist_progress
persist_progress-Inv k n none q h =
    update-Inv q k (λ j. record j { done_count = n }) (λ j. refl) (λ j r. r) h
persist_progress-Inv k n (some total) q h =
    update-Inv q k (λ j. record j { done_count = n; total = some total }) (λ j. refl) (λ j r. r) h

pub record_outcome-Inv :
    (now : ℕ) (out : Outcome) (result : Option String) (k : ℕ) (q : Queue)
    → q.worker ≡ handling k
    → Inv q
    → Inv (record_outcome now out result k q)
unfolding record_outcome
record_outcome-Inv now returned result k q at h =
    broadcast-Inv _ _ (record-Inv now k done none result q (ap worker_job at) (λ e. cc) h)
record_outcome-Inv now (exception message) result k q at h =
    broadcast-Inv _ _ (record-Inv now k error _ result q (ap worker_job at) (λ e. cc) h)
record_outcome-Inv now cancelled_error result k q at h =
    Inv-if q.stopping
      (λ _.
        broadcast-Inv _ _ (record-Inv now k interrupted _ result q (ap worker_job at) (λ e. cc) h))
      (λ _.
        broadcast-Inv _ _ (record-Inv now k cancelled none result q (ap worker_job at) (λ e. cc) h))

pub release-Inv :
    (k : ℕ) (q : Queue)
    → q.worker ≡ recorded k
    → Inv q
    → Inv (release k (close_subscribers k (record q { worker = idle })))
unfolding release close_subscribers
release-Inv k q at h =
    let settled : All NotRunning q.jobs = subst (λ w. Settled w q.jobs) at h.settled in
    Inv-if (same_slot q.running_job_id k)
      (λ _. record {
        distinct = h.distinct;
        runs_only = All-imp q.jobs (λ j n r. absurd (n r)) settled;
        slot = refl;
        settled = tt;
      })
      (λ other. absurd (wrong_slot q.running_job_id k (h.slot ∙ ap worker_job at) other))

pub wind_up-Inv : (now k : ℕ) (q : Queue) → q.worker ≡ recorded k → Inv q → Inv (wind_up now k q)
unfolding wind_up
wind_up-Inv now k q at h = pump-Inv now _ (release-Inv k q at h)

pub cancel_update-Inv :
    (now k : ℕ) (q : Queue) → Inv q → Inv (record q { jobs = update_job k (cancel_row now) q.jobs })
cancel_update-Inv now k q h = update-Inv q k (cancel_row now) (λ j. refl) (λ j r. cc) h

pub cancel-Inv : (now k : ℕ) (q : Queue) → Inv q → Inv (cancel now k q).0
unfolding cancel
cancel-Inv now k q h =
    Inv-if_fst (same_slot q.running_job_id k && has_event q.cancel_event) _ _
      (λ _. broadcast-Inv _ _ (record {
        distinct = h.distinct;
        runs_only = h.runs_only;
        slot = h.slot;
        settled = h.settled;
      }))
      (λ _. drop (find_job k q.jobs))
  where
    drop : (found : Option Job) → Inv (drop_queued now k found q).0
    drop none = h
    drop (some j) =
        Inv-if_fst (is_queued j.status) _ _
          (λ _. close_subscribers-Inv k _ (broadcast-Inv _ _ (cancel_update-Inv now k q h)))
          (λ _. h)

pub prioritize-Inv : (now k : ℕ) (q : Queue) → Inv q → Inv (prioritize now k q).0
unfolding prioritize
prioritize-Inv now k q h = go (find_job k q.jobs)
  where
    go : (found : Option Job) → Inv (bump now k found q).0
    go none = h
    go (some j) =
        Inv-if_fst (is_queued j.status) _ _
          (λ _. pump-Inv now _ (
            broadcast-Inv _ _ (
              update-Inv q k (λ j. record j { priority = top_priority q.jobs + 1 }) (λ j. refl)
                (λ j r. r) h)))
          (λ _. h)

pub cancel_rows-Inv : (now : ℕ) (rows : List Job) (q : Queue) → Inv q → Inv (cancel_rows now rows q)
unfolding cancel_rows cancel_one
cancel_rows-Inv now [] q h = h
cancel_rows-Inv now (r ∷ rows) q h =
    Inv-if (is_queued r.status)
      (λ _.
        cancel_rows-Inv now rows _
          (close_subscribers-Inv r.id _ (broadcast-Inv _ _ (cancel_update-Inv now r.id q h))))
      (λ _. cancel_rows-Inv now rows q h)

pub ids-reconcile : (now : ℕ) (js : List Job) → ids (reconcile_jobs now js) ≡ ids js
unfolding reconcile_jobs
ids-reconcile now [] = refl
ids-reconcile now (j ∷ js) = ground (arith, ids-reconcile now js)

pub reconcile-settled : (now : ℕ) (js : List Job) → All NotRunning (reconcile_jobs now js)
unfolding reconcile_jobs
reconcile-settled now [] = tt
reconcile-settled now (j ∷ js) = (ground arith, reconcile-settled now js)

pub restart-Inv : (now : ℕ) (q : Queue) → Inv q → Inv (restart now q)
unfolding restart reconcile_on_startup
restart-Inv now q h = record {
  distinct = rw (ids-reconcile now q.jobs) h.distinct;
  runs_only =
      All-imp (reconcile_jobs now q.jobs) (λ j n r. absurd (n r)) (reconcile-settled now q.jobs);
  slot = refl;
  settled = tt;
}
