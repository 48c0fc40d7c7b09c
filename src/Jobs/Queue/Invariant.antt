-- ===== src/Jobs/Queue/Invariant.antt =====
-- The invariant of the queue: its slot, its worker thread and its rows agree.
use packrat.Prelude.{
  ℕ, ◌≡◌, ◌≢◌, refl, sym, ap, Bool, true, false, Option, none, some, List, [], ◌∷◌, ◌++◌, arith,
  All, All-snoc, if◌then◌else◌, ◌∙◌,
}
use Prim.Native.String.{String}
use packrat.Jobs.Row.{Job, JobStatus, running, error, JobError, ProgressEvent}
use packrat.Jobs.Table.{update_job}
use packrat.Jobs.Table.Update.{KeepsId, ids, Distinct, ids-update, All-update}
use packrat.Jobs.Queue.{
  Queue, Worker, idle, launched, handling, recorded, broadcast, close_subscribers, finish,
  finish_row, start, fail_unknown, pump, same_slot,
}
use packrat.Jobs.Queue.Pumping.{Rule, pump_ind}

-- The rows that are running are those of the slot.
abbrev pub RunsOnly : Option ℕ → Job → Type 0
RunsOnly slot j = j.status ≡ running → slot ≡ some j.id

abbrev pub NotRunning : Job → Type 0
NotRunning j = j.status ≢ running

abbrev pub worker_job : Worker → Option ℕ
worker_job idle = none
worker_job (launched k) = some k
worker_job (handling k) = some k
worker_job (recorded k) = some k

-- Once the outcome is written, no row is running any more.
abbrev pub Settled : Worker → List Job → Type 0
Settled (recorded k) js = All NotRunning js
Settled _ js = Unit

pub record Inv (q : Queue) : Type 0 where
  pub distinct : Distinct (ids q.jobs)
  pub runs_only : All (RunsOnly q.running_job_id) q.jobs
  pub slot : q.running_job_id ≡ worker_job q.worker
  pub settled : Settled q.worker q.jobs

-- A conditional keeps the invariant when each branch does.
pub Inv-if :
    (b : Bool) {x y : Queue} → (b ≡ true → Inv x) → (b ≡ false → Inv y) → Inv (if b then x else y)
Inv-if true hx hy = hx refl
Inv-if false hx hy = hy refl

pub Inv-if_fst :
    (b : Bool) (x y : Queue × Bool)
    → (b ≡ true → Inv x.0)
    → (b ≡ false → Inv y.0)
    → Inv ((if b then x else y).0)
Inv-if_fst true x y hx hy = hx refl
Inv-if_fst false x y hx hy = hy refl

pub wrong_slot : (slot : Option ℕ) (k : ℕ) → slot ≡ some k → same_slot slot k ≡ false → ⊥
wrong_slot slot k e f = ground arith

pub Settled-update :
    (w : Worker) (k : ℕ) (f : Job → Job) (js : List Job)
    → ((j : Job) → (f j).status ≡ running → j.status ≡ running)
    → Settled w js
    → Settled w (update_job k f js)
Settled-update (recorded w) k f js keeps h =
    All-update k f js (λ j _ p r. p (keeps j r)) (λ j _ p. p) h
Settled-update idle k f js keeps h = tt
Settled-update (launched w) k f js keeps h = tt
Settled-update (handling w) k f js keeps h = tt

pub Settled-snoc :
    (w : Worker) (js : List Job) (j : Job)
    → j.status ≢ running
    → Settled w js
    → Settled w (js ++ j ∷ [])
Settled-snoc (recorded w) js j n h = All-snoc NotRunning js j h n
Settled-snoc idle js j n h = tt
Settled-snoc (launched w) js j n h = tt
Settled-snoc (handling w) js j n h = tt

-- An update that starts no job.
pub update-Inv :
    (q : Queue) (k : ℕ) (f : Job → Job)
    → KeepsId f
    → ((j : Job) → (f j).status ≡ running → j.status ≡ running)
    → Inv q
    → Inv (record q { jobs = update_job k f q.jobs })
update-Inv q k f id keeps h = record {
  distinct = rw (ids-update k f q.jobs id) h.distinct;
  runs_only =
      All-update k f q.jobs (λ j _ p r. p (keeps j r) ∙ ap some (sym (id j))) (λ j _ p. p)
        h.runs_only;
  slot = h.slot;
  settled = Settled-update q.worker k f q.jobs keeps h.settled;
}

pub broadcast-Inv : (ev : ProgressEvent) (q : Queue) → Inv q → Inv (broadcast ev q)
unfolding broadcast
broadcast-Inv ev q h = record {
  distinct = h.distinct;
  runs_only = h.runs_only;
  slot = h.slot;
  settled = h.settled;
}

pub close_subscribers-Inv : (k : ℕ) (q : Queue) → Inv q → Inv (close_subscribers k q)
unfolding close_subscribers
close_subscribers-Inv k q h = record {
  distinct = h.distinct;
  runs_only = h.runs_only;
  slot = h.slot;
  settled = h.settled;
}

pub finish-Inv :
    (now k : ℕ) (status : JobStatus) (err : Option JobError) (result : Option String) (q : Queue)
    → status ≢ running
    → Inv q
    → Inv (finish now k status err result q)
unfolding finish
finish-Inv now k status err result q n h =
    update-Inv q k (finish_row now status err result) (λ j. refl) (λ j r. absurd (n r)) h

pub start-Inv : (now k : ℕ) (q : Queue) → q.running_job_id ≡ none → Inv q → Inv (start now k q)
unfolding start
start-Inv now k q free h = record {
  distinct =
      rw
        (ids-update k (λ j. record j { status = running; started_at = some now }) q.jobs
          (λ j. refl))
        h.distinct;
  runs_only =
      All-update k (λ j. record j { status = running; started_at = some now }) q.jobs
        (λ j e _ _. ap some (sym e)) (λ j _ p r. cc (p r, free)) h.runs_only;
  slot = refl;
  settled = tt;
}

pub fail_unknown-Inv : (now : ℕ) (j : Job) (q : Queue) → Inv q → Inv (fail_unknown now j q)
unfolding fail_unknown
fail_unknown-Inv now j q h =
    close_subscribers-Inv j.id _
      (broadcast-Inv _ _ (finish-Inv now j.id error _ none q (λ e. cc) h))

-- The slot is free, as long as the loop of `_pump` goes on.
record Free (rows : List Job) (q : Queue) : Type 0 where
  free : q.running_job_id ≡ none
  inv : Inv q

pub fail_unknown-slot :
    (now : ℕ) (j : Job) (q : Queue) → (fail_unknown now j q).running_job_id ≡ q.running_job_id
unfolding fail_unknown finish broadcast close_subscribers
fail_unknown-slot now j q = refl

pump_rule : (now : ℕ) → Rule now Free Inv
pump_rule now = record {
  ends = λ q h. h.inv;
  fails = λ j rows q _ h. record {
    free = fail_unknown-slot now j q ∙ h.free;
    inv = fail_unknown-Inv now j q h.inv;
  };
  starts = λ j rows q _ h. start-Inv now j.id q h.free h.inv;
  skips = λ j rows q _ h. record { free = h.free; inv = h.inv };
}

pub pump-Inv : (now : ℕ) (q : Queue) → Inv q → Inv (pump now q)
pump-Inv now q h = pump_ind (pump_rule now) q h (λ free _. record { free = free; inv = h })
