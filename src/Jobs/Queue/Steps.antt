-- ===== src/Jobs/Queue/Steps.antt =====
-- The interleavings of the queue: every call that a client thread, the scheduler, the worker thread
-- or a daemon restart can make next. The handler is not part of the queue: while it runs it may
-- report progress and may change the rows that hold a root in any way. `submit`, `prioritize` and the
-- end of `_run_job` give the lock back before they pump: their first halves are steps as well
-- (`filed`, `raised_priority`, `released`), and `pumped` is the second half of each, with any other
-- step in between.
use Prim.Native.String.{String}
use packrat.Prelude.{ℕ, ◌+◌, ◌≡◌, false, true, Option, none, some, List, []}
use packrat.Jobs.Row.{Job, JobType, Params, is_queued, ReviewRun, MergeRun}
use packrat.Jobs.Table.{find_job, update_job, top_priority}
use packrat.Jobs.Stream.{Subscriber}
use packrat.Jobs.Queue.{
  Queue, idle, launched, handling, recorded, Outcome, submit, pump, create_job_row, dedup_probe,
  release, close_subscribers, load_config, record_outcome, wind_up, persist_progress, cancel,
  prioritize, cancel_all_queued, shutdown,
}
use packrat.Jobs.Reconcile.{reconcile_on_startup}

-- A daemon that has just started over what the previous one left, at any point of its work.
unfoldable pub restart : ℕ → Queue → Queue
unfolding reconcile_on_startup
restart now q =
    let s = reconcile_on_startup now q.jobs q.reviews in
    record {
      jobs = s.jobs;
      reviews = s.rollback.reviews;
      merges = q.merges;
      subscribers = [];
      running_job_id = none;
      cancel_event = none;
      stopping = false;
      worker = idle;
    }

abbrev pub empty_queue : Queue
empty_queue = record {
  jobs = [];
  reviews = [];
  merges = [];
  subscribers = [];
  running_job_id = none;
  cancel_event = none;
  stopping = false;
  worker = idle;
}

pub data Step (q : Queue) : Queue → Type 0 where
  submitted :
      (now : ℕ) (type : JobType) (params : Params) (q' : Queue) (k : ℕ)
      → submit now type params q ≡ some (q', k)
      → Step q q'
  filed :
      (now : ℕ) (type : JobType) (params : Params)
      → dedup_probe type params q.jobs ≡ none
      → Step q (create_job_row now type params q)
  pumped : (now : ℕ) → Step q (pump now q)
  configured :
      (now : ℕ) (problem : Option String) (k : ℕ)
      → q.worker ≡ launched k
      → Step q (load_config now problem k q)
  progressed :
      (k n : ℕ) (total : Option ℕ) → q.worker ≡ handling k → Step q (persist_progress k n total q)
  touched :
      (k : ℕ) (reviews : List ReviewRun) (merges : List MergeRun)
      → q.worker ≡ handling k
      → Step q (record q { reviews = reviews; merges = merges })
  ended :
      (now : ℕ) (out : Outcome) (result : Option String) (k : ℕ)
      → q.worker ≡ handling k
      → Step q (record_outcome now out result k q)
  released :
      (k : ℕ)
      → q.worker ≡ recorded k
      → Step q (release k (close_subscribers k (record q { worker = idle })))
  raised_priority :
      (k : ℕ) (j : Job)
      → find_job k q.jobs ≡ some j
      → is_queued j.status ≡ true
      → Step q (record q {
        jobs = update_job k (λ j. record j { priority = top_priority q.jobs + 1 }) q.jobs;
      })
  wound_up : (now k : ℕ) → q.worker ≡ recorded k → Step q (wind_up now k q)
  cancelled : (now k : ℕ) → Step q (cancel now k q).0
  prioritized : (now k : ℕ) → Step q (prioritize now k q).0
  cancelled_all : (now : ℕ) → Step q (cancel_all_queued now q).0
  shut_down : Step q (shutdown q)
  streamed : (subs : List Subscriber) → Step q (record q { subscribers = subs })
  restarted : (now : ℕ) → Step q (restart now q)

pub data Reach (q : Queue) : Queue → Type 0 where
  here : Reach q q
  next : {r s : Queue} → Reach q r → Step r s → Reach q s

-- What every step keeps holds of every state that is reached.
pub Reach-induction {ℓ} :
    (P : Queue → Type ℓ)
    → ((r s : Queue) → Step r s → P r → P s)
    → (q s : Queue) → P q
    → Reach q s
    → P s
Reach-induction P keep q s h here = h
Reach-induction P keep q s h (next {r = r} r' st) = keep r s st (Reach-induction P keep q r h r')
