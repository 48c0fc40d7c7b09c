-- ===== src/Jobs/Queue/Probes.antt =====
-- What every call leaves of the table, and the bound on the waiting probes.
use packrat.Prelude.{
  ℕ, suc, ◌+◌, ◌≤◌, ◌≡◌, refl, sym, Bool, true, false, Option, none, some, List, [], ◌∷◌, ◌++◌,
  arith, if◌then◌else◌, ◌⊎◌, inl, inr, ◌&&◌,
}
use Prim.Native.String.{String}
use mathlib.Core.Path.{subst}
use packrat.Jobs.Row.{
  Job, JobType, JobStatus, done, error, cancelled, interrupted, JobError, Params, is_queued,
}
use packrat.Jobs.Table.{max_id, new_row, find_job, top_priority}
use packrat.Jobs.Table.History.{
  Kept, Same, Same-refl, Same-trans, Same-update, Same-map, count_probes, count_probes-Same,
  count_probes-snoc, queued_probe-none,
}
use packrat.Jobs.Queue.{
  Queue, idle, Outcome, returned, cancelled_error, exception, broadcast, close_subscribers, finish,
  finish_row, start, fail_unknown, pump, load_config, record_outcome, release, wind_up,
  create_job_row, dedup_probe, persist_progress, cancel, cancel_row, drop_queued, prioritize, bump,
  cancel_rows, cancel_one, cancel_all_queued, shutdown, same_slot, has_event,
}
use packrat.Jobs.Queue.Pumping.{Rule, pump_ind, submit_cases}
use packrat.Jobs.Queue.Steps.{Step, Reach, restart, empty_queue, Reach-induction}
use packrat.Jobs.Reconcile.{reconcile_on_startup, reconcile_jobs, interrupt_running, carve_out}

Same-if :
    (b : Bool) (js : List Job) (x y : Queue)
    → Same js x.jobs
    → Same js y.jobs
    → Same js (if b then x else y).jobs
Same-if true js x y hx hy = hx
Same-if false js x y hx hy = hy

Same-if_fst :
    (b : Bool) (js : List Job) (x y : Queue × Bool)
    → Same js (x.0).jobs
    → Same js (y.0).jobs
    → Same js ((if b then x else y).0).jobs
Same-if_fst true js x y hx hy = hx
Same-if_fst false js x y hx hy = hy

-- A change of the status to one that is not queued, and of fields that are not part of the submission.
Kept-finish :
    (now : ℕ) (status : JobStatus) (err : Option JobError) (result : Option String)
    → is_queued status ≡ false
    → (j : Job) → Kept j (finish_row now status err result j)
Kept-finish now status err result n j = record {
  id = refl;
  type = refl;
  root = refl;
  params = refl;
  enqueued = refl;
  leaves = λ e. cc (e, n);
}

Same-finish :
    (now k : ℕ) (status : JobStatus) (err : Option JobError) (result : Option String) (q : Queue)
    → is_queued status ≡ false
    → Same q.jobs (finish now k status err result q).jobs
unfolding finish
Same-finish now k status err result q n =
    Same-update k _ q.jobs (Kept-finish now status err result n)

Same-start : (now k : ℕ) (q : Queue) → Same q.jobs (start now k q).jobs
unfolding start
Same-start now k q = Same-update k _ q.jobs λ j. record {
  id = refl;
  type = refl;
  root = refl;
  params = refl;
  enqueued = refl;
  leaves = λ e. cc;
}

Same-fail_unknown : (now : ℕ) (j : Job) (q : Queue) → Same q.jobs (fail_unknown now j q).jobs
unfolding fail_unknown broadcast close_subscribers
Same-fail_unknown now j q = Same-finish now j.id error _ none q refl

Same-pump : (now : ℕ) (q : Queue) → Same q.jobs (pump now q).jobs
Same-pump now q = pump_ind rule q (Same-refl q.jobs) (λ _ _. Same-refl q.jobs)
  where
    rule : Rule now (λ rows s. Same q.jobs s.jobs) (λ s. Same q.jobs s.jobs)
    rule = record {
      ends = λ s h. h;
      fails = λ j rows s _ h. Same-trans _ _ _ h (Same-fail_unknown now j s);
      starts = λ j rows s _ h. Same-trans _ _ _ h (Same-start now j.id s);
      skips = λ j rows s _ h. h;
    }

Same-load_config :
    (now : ℕ) (problem : Option String) (k : ℕ) (q : Queue)
    → Same q.jobs (load_config now problem k q).jobs
unfolding load_config broadcast
Same-load_config now none k q = Same-refl q.jobs
Same-load_config now (some message) k q = Same-finish now k error _ none _ refl

Same-record_outcome :
    (now : ℕ) (out : Outcome) (result : Option String) (k : ℕ) (q : Queue)
    → Same q.jobs (record_outcome now out result k q).jobs
unfolding record_outcome broadcast
Same-record_outcome now returned result k q = Same-finish now k done none result _ refl
Same-record_outcome now (exception message) result k q = Same-finish now k error _ result _ refl
Same-record_outcome now cancelled_error result k q =
    Same-if q.stopping q.jobs _ _ (Same-finish now k interrupted _ result _ refl)
      (Same-finish now k cancelled none result _ refl)

Same-release :
    (k : ℕ) (q : Queue)
    → Same q.jobs (release k (close_subscribers k (record q { worker = idle }))).jobs
unfolding release close_subscribers
Same-release k q =
    Same-if (same_slot q.running_job_id k) q.jobs _ _ (Same-refl q.jobs) (Same-refl q.jobs)

Same-wind_up : (now k : ℕ) (q : Queue) → Same q.jobs (wind_up now k q).jobs
unfolding wind_up
Same-wind_up now k q = Same-trans _ _ _ (Same-release k q) (Same-pump now _)

Kept-priority : (p : ℕ) (j : Job) → Kept j (record j { priority = p })
Kept-priority p j = record {
  id = refl;
  type = refl;
  root = refl;
  params = refl;
  enqueued = refl;
  leaves = λ e. e;
}

Kept-progress :
    (n : ℕ) (total : Option ℕ) (j : Job) → Kept j (record j { done_count = n; total = total })
Kept-progress n total j = record {
  id = refl;
  type = refl;
  root = refl;
  params = refl;
  enqueued = refl;
  leaves = λ e. e;
}

Kept-cancel : (now : ℕ) (j : Job) → Kept j (cancel_row now j)
Kept-cancel now j = record {
  id = refl;
  type = refl;
  root = refl;
  params = refl;
  enqueued = refl;
  leaves = λ e. cc;
}

Same-cancel : (now k : ℕ) (q : Queue) → Same q.jobs (cancel now k q).0.jobs
unfolding cancel broadcast close_subscribers
Same-cancel now k q =
    Same-if_fst (same_slot q.running_job_id k && has_event q.cancel_event) q.jobs _ _
      (Same-refl q.jobs) (drop (find_job k q.jobs))
  where
    drop : (found : Option Job) → Same q.jobs (drop_queued now k found q).0.jobs
    drop none = Same-refl q.jobs
    drop (some j) =
        Same-if_fst (is_queued j.status) q.jobs _ _
          (Same-update k (cancel_row now) q.jobs (Kept-cancel now)) (Same-refl q.jobs)

Same-prioritize : (now k : ℕ) (q : Queue) → Same q.jobs (prioritize now k q).0.jobs
unfolding prioritize broadcast
Same-prioritize now k q = go (find_job k q.jobs)
  where
    go : (found : Option Job) → Same q.jobs (bump now k found q).0.jobs
    go none = Same-refl q.jobs
    go (some j) =
        Same-if_fst (is_queued j.status) q.jobs _ _
          (Same-trans _ _ _
            (Same-update k (λ j. record j { priority = top_priority q.jobs + 1 }) q.jobs
              (λ j. Kept-priority (top_priority q.jobs + 1) j))
            (Same-pump now _))
          (Same-refl q.jobs)

Same-cancel_rows :
    (now : ℕ) (rows : List Job) (q : Queue) → Same q.jobs (cancel_rows now rows q).jobs
unfolding cancel_rows
Same-cancel_rows now [] q = Same-refl q.jobs
Same-cancel_rows now (r ∷ rows) q =
    Same-if (is_queued r.status) q.jobs _ _
      (Same-trans _ _ _ (one r) (Same-cancel_rows now rows (cancel_one now r q)))
      (Same-cancel_rows now rows q)
  where
    one : (r : Job) → Same q.jobs (cancel_one now r q).jobs
    one r =
        unfold cancel_one broadcast close_subscribers in
        Same-update r.id (cancel_row now) q.jobs (Kept-cancel now)

Same-persist_progress :
    (k n : ℕ) (total : Option ℕ) (q : Queue) → Same q.jobs (persist_progress k n total q).jobs
unfolding persist_progress
Same-persist_progress k n none q = Same-update k _ q.jobs (λ j. Kept-progress n j.total j)
Same-persist_progress k n (some total) q =
    Same-update k _ q.jobs (λ j. Kept-progress n (some total) j)

Kept-interrupt : (now : ℕ) (j : Job) → Kept j (interrupt_running now j)
Kept-interrupt now j = record {
  id = ground arith;
  type = ground arith;
  root = ground arith;
  params = ground arith;
  enqueued = ground arith;
  leaves = ground arith;
}

Kept-carve_out : (now : ℕ) (j : Job) → Kept j (carve_out now j)
Kept-carve_out now j = record {
  id = ground arith;
  type = ground arith;
  root = ground arith;
  params = ground arith;
  enqueued = ground arith;
  leaves = ground arith;
}

Same-restart : (now : ℕ) (q : Queue) → Same q.jobs (restart now q).jobs
unfolding restart reconcile_on_startup reconcile_jobs
Same-restart now q =
    Same-trans _ _ _ (Same-map (interrupt_running now) q.jobs (Kept-interrupt now))
      (Same-map (carve_out now) _ (Kept-carve_out now))

-- The row that a submission adds: for a probe, only where no probe of its root waits.
abbrev Added : Queue → Queue → Type 0
Added q s =
    (now : ℕ) × (type : JobType) × (params : Params) × (dedup_probe type params q.jobs ≡ none)
    × Same (create_job_row now type params q).jobs s.jobs

Step-Same : (q s : Queue) → Step q s → Same q.jobs s.jobs ⊎ Added q s
Step-Same q s (Step.submitted now type params q' k e) = elim (submit_cases now type params q e) [
  | inl same ↦ inl (subst (λ t. Same q.jobs t.jobs) (sym same) (Same-refl q.jobs))
  | inr (new, _, fresh) ↦ inr (
    now,
    type,
    params,
    fresh,
    subst (λ t. Same (create_job_row now type params q).jobs t.jobs) (sym new) (Same-pump now _),
  )
]
Step-Same q s (Step.pumped now) = inl (Same-pump now q)
Step-Same q s (Step.configured now problem k at) = inl (Same-load_config now problem k q)
Step-Same q s (Step.progressed k n total at) = inl (Same-persist_progress k n total q)
Step-Same q s (Step.touched k reviews merges at) = inl (Same-refl q.jobs)
Step-Same q s (Step.ended now out result k at) = inl (Same-record_outcome now out result k q)
Step-Same q s (Step.filed now type params fresh) =
    inr (now, type, params, fresh, Same-refl (create_job_row now type params q).jobs)
Step-Same q s (Step.released k at) = inl (Same-release k q)
Step-Same q s (Step.raised_priority k j found waits) =
    inl (Same-update k _ q.jobs (λ j. Kept-priority (top_priority q.jobs + 1) j))
Step-Same q s (Step.wound_up now k at) = inl (Same-wind_up now k q)
Step-Same q s (Step.cancelled now k) = inl (Same-cancel now k q)
Step-Same q s (Step.prioritized now k) = inl (Same-prioritize now k q)
Step-Same q s (Step.cancelled_all now) =
    inl (unfold cancel_all_queued in Same-cancel_rows now q.jobs q)
Step-Same q s Step.shut_down = inl (unfold shutdown in Same-refl q.jobs)
Step-Same q s (Step.streamed subs) = inl (Same-refl q.jobs)
Step-Same q s (Step.restarted now) = inl (Same-restart now q)

-- Each row of the first table stands in the second at the same place.
abbrev pub Persists : List Job → List Job → Type 0
Persists [] is = Unit
Persists (j ∷ js) [] = ⊥
Persists (j ∷ js) (i ∷ is) = Kept j i × Persists js is

Persists-Same : (js is : List Job) → Same js is → Persists js is
Persists-Same [] is h = tt
Persists-Same (j ∷ js) [] h = absurd h
Persists-Same (j ∷ js) (i ∷ is) h = (h.0, Persists-Same js is h.1)

Persists-snoc : (js is : List Job) (r : Job) → Same (js ++ r ∷ []) is → Persists js is
Persists-snoc [] is r h = tt
Persists-snoc (j ∷ js) [] r h = absurd h
Persists-snoc (j ∷ js) (i ∷ is) r h = (h.0, Persists-snoc js is r h.1)

-- Every row of the table stays through any step, with its id, type, root, parameters and time of
-- submission, and a job that has left the backlog never comes back to it.
pub rows_persist : (q s : Queue) → Step q s → Persists q.jobs s.jobs
unfolding create_job_row
rows_persist q s st = elim (Step-Same q s st) [
  | inl h ↦ Persists-Same q.jobs s.jobs h
  | inr (now, type, params, _, h) ↦ Persists-snoc q.jobs s.jobs _ h
]

abbrev OneProbe : Queue → Type 0
OneProbe q = (root : ℕ) → count_probes root q.jobs ≤ 1

create-OneProbe :
    (now : ℕ) (type : JobType) (params : Params) (q : Queue)
    → dedup_probe type params q.jobs ≡ none
    → OneProbe q
    → OneProbe (create_job_row now type params q)
unfolding create_job_row dedup_probe
create-OneProbe now type params q fresh h root = ground (
  arith,
  h root,
  queued_probe-none root q.jobs,
  count_probes-snoc root q.jobs (new_row (suc (max_id q.jobs)) now type params),
)

Step-OneProbe : (q s : Queue) → Step q s → OneProbe q → OneProbe s
Step-OneProbe q s st h root = elim (Step-Same q s st) [
  | inl same ↦ omega (arith, count_probes-Same root q.jobs s.jobs same, h root)
  | inr (now, type, params, fresh, same) ↦
      omega (
        arith,
        count_probes-Same root _ s.jobs same,
        create-OneProbe now type params q fresh h root,
      )
]

-- However the queue is used, at most one probe of a root waits in the backlog.
pub one_waiting_probe : (q : Queue) (root : ℕ) → Reach empty_queue q → count_probes root q.jobs ≤ 1
one_waiting_probe q root r =
    Reach-induction OneProbe Step-OneProbe empty_queue q
      (unfold count_probes in λ root. omega arith) r root
