-- ===== src/Jobs/Row.antt =====
-- One row of the jobs table (db/schema.py), the submitted parameters, the rows of review_runs and
-- merge_runs that hold a root, and the events that a job pushes (jobs/context.py).
use Prim.Native.String.{String}
use packrat.Prelude.{ℕ, Bool, true, false, Option, none, some}

-- jobs.type. A text that no module registers is `unregistered`.
pub data JobType : Type 0 where
  scan probe dedup cleanup merge untrash trash_refresh : JobType
  unregistered : String → JobType

-- The keys of the params dict that the runtime reads; a missing flag is false.
pub record Params : Type 0 where
  pub root_id : Option ℕ
  pub all : Bool
  pub full : Bool
  pub embed : Bool
  pub dry_run : Bool
  pub cancel : Bool
  pub confirm : Bool
  pub keep_suggested : Bool
  pub apply : Bool
  pub mode : Option String

abbrev pub no_params : Params
no_params = record {
  root_id = none;
  all = false;
  full = false;
  embed = false;
  dry_run = false;
  cancel = false;
  confirm = false;
  keep_suggested = false;
  apply = false;
  mode = none;
}

pub data JobStatus : Type 0 where
  queued running done error cancelled interrupted : JobStatus

-- jobs.error. The texts that the runtime writes are constructors, a handler's own text is `raised`.
pub data JobError : Type 0 where
  unknown_job_type : JobType → JobError
  config_error : String → JobError
  raised : String → JobError
  daemon_stopped : JobError
  daemon_restarted : JobError
  confirm_not_run : JobError

pub record Job : Type 0 where
  pub id : ℕ
  pub type : JobType
  pub root_id : Option ℕ
  pub status : JobStatus
  pub total : Option ℕ
  pub done_count : ℕ
  pub enqueued_at : ℕ
  pub started_at : Option ℕ
  pub finished_at : Option ℕ
  pub error : Option JobError
  pub result_json : Option String
  pub priority : ℕ
  pub params_json : Option Params

-- json.loads of the params column: NULL or an unreadable text gives the empty dict.
abbrev pub parse_params : Option Params → Params
parse_params none = no_params
parse_params (some p) = p

abbrev pub is_queued : JobStatus → Bool
is_queued queued = true
is_queued _ = false

abbrev pub is_running : JobStatus → Bool
is_running running = true
is_running _ = false

abbrev pub is_terminal : JobStatus → Bool
is_terminal queued = false
is_terminal running = false
is_terminal _ = true

abbrev pub is_probe : JobType → Bool
is_probe probe = true
is_probe _ = false

pub data ReviewStatus : Type 0 where
  pending completed review_cancelled : ReviewStatus

pub data StagePhase : Type 0 where
  staged applied : StagePhase

pub record ReviewRun : Type 0 where
  pub id : ℕ
  pub root_id : ℕ
  pub status : ReviewStatus
  pub stage : ℕ
  pub stage_phase : Option StagePhase
  pub confirmed_at : Option ℕ

pub data MergeStatus : Type 0 where
  planning copying merge_done merge_cancelled merge_error : MergeStatus

pub record MergeRun : Type 0 where
  pub id : ℕ
  pub dest_root_id : ℕ
  pub status : MergeStatus

-- The `type` of a progress event.
pub data EventType : Type 0 where
  progress state log done_event error_event : EventType

pub data Message : Type 0 where
  cancel_requested prioritized : Message
  failed : JobError → Message
  said : String → Message

pub record ProgressEvent : Type 0 where
  pub job_id : ℕ
  pub type : EventType
  pub status : Option JobStatus
  pub total : Option ℕ
  pub done_count : Option ℕ
  pub message : Option Message
