-- ===== src/Jobs/Queue.antt =====
-- The single-worker queue (JobQueue of jobs/queue.py). One function for each method, over the state
-- that the methods share. `now_iso()` is the argument `now`. The worker thread's code is cut at the
-- points where another thread can come between: the state keeps how far it has come.
mod Pumping
pub mod Invariant
mod Calls
pub mod Steps
pub mod Unattended
pub mod OneWorker
pub mod Dispatch
pub mod Probes
pub mod Exclusive
use packrat.Prelude.{
  ℕ, suc, ◌+◌, Bool, true, false, Option, none, some, List, [], ◌∷◌, ◌++◌, ◌==◌, ◌&&◌,
  if◌then◌else◌, length,
}
use Prim.Native.String.{String}
use packrat.Jobs.Row.{
  Job, JobType, JobStatus, queued, running, done, error, cancelled, interrupted, JobError,
  unknown_job_type, config_error, raised, daemon_stopped, Params, parse_params, is_queued, is_probe,
  ReviewRun, MergeRun, ProgressEvent, EventType, state, log, done_event, error_event, Message,
  cancel_requested, prioritized, failed,
}
use packrat.Jobs.Table.{find_job, update_job, max_id, new_row, queued_probe, top_priority, backlog}
use packrat.Jobs.Registry.{JobSpec, get_job_spec, Holder, root_holder}
use packrat.Jobs.Stream
use packrat.Jobs.Stream.{Subscriber}

-- Where the worker thread of `_run_job` stands.
pub data Worker : Type 0 where
  idle : Worker
  launched : ℕ → Worker  -- before the config is read
  handling : ℕ → Worker  -- inside spec.handler(ctx)
  recorded : ℕ → Worker  -- the outcome is written, the slot is still taken

pub record Queue : Type 0 where
  pub jobs : List Job
  pub reviews : List ReviewRun
  pub merges : List MergeRun
  pub subscribers : List Subscriber
  pub running_job_id : Option ℕ
  pub cancel_event : Option Bool
  pub stopping : Bool
  pub worker : Worker

abbrev event : ℕ → EventType → Option JobStatus → Option Message → ProgressEvent
event k type status message = record {
  job_id = k;
  type = type;
  status = status;
  total = none;
  done_count = none;
  message = message;
}

unfoldable pub broadcast : ProgressEvent → Queue → Queue
broadcast ev q = record q { subscribers = Stream.broadcast ev q.subscribers }

unfoldable pub close_subscribers : ℕ → Queue → Queue
close_subscribers k q = record q { subscribers = Stream.close_subscribers k q.subscribers }

-- `_finish`: the terminal UPDATE.
abbrev pub finish_row : ℕ → JobStatus → Option JobError → Option String → Job → Job
finish_row now status err result j = record j {
  status = status;
  finished_at = some now;
  error = err;
  result_json = result;
}

unfoldable pub finish : ℕ → ℕ → JobStatus → Option JobError → Option String → Queue → Queue
finish now k status err result q = record q {
  jobs = update_job k (finish_row now status err result) q.jobs;
}

abbrev pub start_row : ℕ → Job → Job
start_row now j = record j { status = running; started_at = some now }

unfoldable pub start : ℕ → ℕ → Queue → Queue
start now k q = record q {
  jobs = update_job k (start_row now) q.jobs;
  running_job_id = some k;
  cancel_event = some false;
  worker = launched k;
}

-- `_is_runnable`: the job owns no root, or nothing else holds it.
abbrev free : Option Holder → Bool
free none = true
free (some _) = false

abbrev pub owned : Option (Params → Option ℕ) → Params → Option ℕ
owned none params = none
owned (some root) params = root params

abbrev holder_at : List ReviewRun → List MergeRun → Bool → Option ℕ → Option Holder
holder_at reviews merges ignore none = none
holder_at reviews merges ignore (some root) = root_holder reviews merges root ignore

unfoldable pub is_runnable : List ReviewRun → List MergeRun → JobSpec → Params → Bool
is_runnable reviews merges spec params =
    free (holder_at reviews merges spec.ignore_merge_holder (owned spec.owned_root params))

-- An unknown type in the backlog ends as an error, and its stream ends.
unfoldable pub fail_unknown : ℕ → Job → Queue → Queue
fail_unknown now j q =
    let err = unknown_job_type j.type in
    close_subscribers j.id (
      broadcast (event j.id error_event (some error) (some (failed err)))
        (finish now j.id error (some err) none q))

-- What the loop of `_pump` finds of a row.
pub data Verdict : Type 0 where
  no_spec runnable blocked : Verdict

abbrev verdict_of : List ReviewRun → List MergeRun → Params → Option JobSpec → Verdict
verdict_of reviews merges params none = no_spec
verdict_of reviews merges params (some spec) =
    if is_runnable reviews merges spec params then runnable else blocked

unfoldable pub verdict : List ReviewRun → List MergeRun → Job → Verdict
verdict reviews merges j =
    verdict_of reviews merges (parse_params j.params_json) (get_job_spec j.type)

-- The loop of `_pump` over the rows that its query returned.
unfoldable pub pump_rows : ℕ → List Job → Queue → Queue
pump_rows now [] q = q
pump_rows now (j ∷ rows) q = elim (verdict q.reviews q.merges j) [
  | no_spec ↦ pump_rows now rows (fail_unknown now j q)
  | runnable ↦ start now j.id q
  | blocked ↦ pump_rows now rows q
]

abbrev taken : Option ℕ → Bool
taken none = false
taken (some _) = true

unfoldable pub pump : ℕ → Queue → Queue
pump now q =
    if q.stopping then q else if taken q.running_job_id then q else pump_rows now (backlog q.jobs) q

-- `_dedup_probe`: a probe that still waits for this root.
abbrev probe_at : Option ℕ → List Job → Option ℕ
probe_at none jobs = none
probe_at (some root) jobs = queued_probe root jobs

unfoldable pub dedup_probe : JobType → Params → List Job → Option ℕ
dedup_probe type params jobs = if is_probe type then probe_at params.root_id jobs else none

unfoldable pub create_job_row : ℕ → JobType → Params → Queue → Queue
create_job_row now type params q = record q {
  jobs = q.jobs ++ new_row (suc (max_id q.jobs)) now type params ∷ [];
}

abbrev submit_known : ℕ → JobType → Params → Option ℕ → Queue → Queue × ℕ
submit_known now type params (some existing) q = (q, existing)
submit_known now type params none q =
    (pump now (create_job_row now type params q), suc (max_id q.jobs))

-- `none` is the ValueError for an unknown type: nothing has changed.
unfoldable pub submit : ℕ → JobType → Params → Queue → Option (Queue × ℕ)
submit now type params q = elim (get_job_spec type) [
  | none ↦ none
  | some spec ↦ some (submit_known now type params (dedup_probe type params q.jobs) q)
]

-- `_run_job` up to the handler. A config that does not load ends the job.
unfoldable pub load_config : ℕ → Option String → ℕ → Queue → Queue
load_config now none k q =
    broadcast (event k state (some running) none) (record q { worker = handling k })
load_config now (some message) k q =
    broadcast (event k error_event (some error) (some (failed (config_error message))))
      (finish now k error (some (config_error message)) none (record q { worker = recorded k }))

-- How the handler ended, with the result that it set.
pub data Outcome : Type 0 where
  returned : Outcome
  cancelled_error : Outcome
  exception : String → Outcome

-- The except and else branches of `_run_job`.
unfoldable pub record_outcome : ℕ → Outcome → Option String → ℕ → Queue → Queue
record_outcome now returned result k q =
    broadcast (event k done_event (some done) none)
      (finish now k done none result (record q { worker = recorded k }))
record_outcome now cancelled_error result k q =
    if q.stopping
    then broadcast (event k state (some interrupted) none)
        (finish now k interrupted (some daemon_stopped) result (record q { worker = recorded k }))
    else broadcast (event k state (some cancelled) none)
        (finish now k cancelled none result (record q { worker = recorded k }))
record_outcome now (exception message) result k q =
    broadcast (event k error_event (some error) (some (failed (raised message))))
      (finish now k error (some (raised message)) result (record q { worker = recorded k }))

abbrev pub same_slot : Option ℕ → ℕ → Bool
same_slot none k = false
same_slot (some r) k = r == k

-- `_release`
unfoldable pub release : ℕ → Queue → Queue
release k q =
    if same_slot q.running_job_id k
    then record q { running_job_id = none; cancel_event = none }
    else q

-- The finally branch: the streams end, the slot is free, and the queue is pumped.
unfoldable pub wind_up : ℕ → ℕ → Queue → Queue
wind_up now k q = pump now (release k (close_subscribers k (record q { worker = idle })))

-- `_persist_progress`
unfoldable pub persist_progress : ℕ → ℕ → Option ℕ → Queue → Queue
persist_progress k n none q = record q {
  jobs = update_job k (λ j. record j { done_count = n }) q.jobs;
}
persist_progress k n (some total) q = record q {
  jobs = update_job k (λ j. record j { done_count = n; total = some total }) q.jobs;
}

abbrev pub cancel_row : ℕ → Job → Job
cancel_row now j = record j { status = cancelled; finished_at = some now }

abbrev pub has_event : Option Bool → Bool
has_event none = false
has_event (some _) = true

abbrev pub drop_queued : ℕ → ℕ → Option Job → Queue → Queue × Bool
drop_queued now k none q = (q, false)
drop_queued now k (some j) q =
    if is_queued j.status
    then (
      close_subscribers k (
          broadcast (event k state (some cancelled) none)
            (record q { jobs = update_job k (cancel_row now) q.jobs })),
      true,
    )
    else (q, false)

unfoldable pub cancel : ℕ → ℕ → Queue → Queue × Bool
cancel now k q =
    if same_slot q.running_job_id k && has_event q.cancel_event
    then (
      broadcast (event k log none (some cancel_requested)) (record q { cancel_event = some true }),
      true,
    )
    else drop_queued now k (find_job k q.jobs) q

abbrev pub bump : ℕ → ℕ → Option Job → Queue → Queue × Bool
bump now k none q = (q, false)
bump now k (some j) q =
    if is_queued j.status
    then (
      pump now (
          broadcast (event k log none (some prioritized)) (record q {
            jobs = update_job k (λ j. record j { priority = top_priority q.jobs + 1 }) q.jobs;
          })),
      true,
    )
    else (q, false)

unfoldable pub prioritize : ℕ → ℕ → Queue → Queue × Bool
prioritize now k q = bump now k (find_job k q.jobs) q

-- The body of the loop of `cancel_all_queued`, for one row of its query.
unfoldable pub cancel_one : ℕ → Job → Queue → Queue
cancel_one now r q = close_subscribers r.id (
    broadcast (event r.id state (some cancelled) none)
      (record q { jobs = update_job r.id (cancel_row now) q.jobs }))

unfoldable pub cancel_rows : ℕ → List Job → Queue → Queue
cancel_rows now [] q = q
cancel_rows now (r ∷ rows) q =
    if is_queued r.status then cancel_rows now rows (cancel_one now r q) else cancel_rows now rows q

unfoldable pub count_queued : List Job → ℕ
count_queued [] = 0
count_queued (r ∷ rows) = (if is_queued r.status then 1 else 0) + count_queued rows

unfoldable pub cancel_all_queued : ℕ → Queue → Queue × ℕ
cancel_all_queued now q = (cancel_rows now q.jobs q, count_queued q.jobs)

abbrev raise_flag : Option Bool → Option Bool
raise_flag none = none
raise_flag (some _) = some true

-- `shutdown` without the join of the worker thread, which goes on by its own steps.
unfoldable pub shutdown : Queue → Queue
shutdown q = record q { stopping = true; cancel_event = raise_flag q.cancel_event }

-- `blocked_reason`
unfoldable pub blocked_reason : JobType → Params → Queue → Option Holder
blocked_reason type params q = elim (get_job_spec type) [
  | none ↦ none
  | some spec ↦ holder_at q.reviews q.merges spec.ignore_merge_holder (owned spec.owned_root params)
]
