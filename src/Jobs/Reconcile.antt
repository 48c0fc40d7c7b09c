-- ===== src/Jobs/Reconcile.antt =====
-- Startup reconciliation (jobs/reconcile.py). The roots row that the rollback's query joins always
-- exists (a foreign key), and the deletion of a staging tree is recorded in `removed`.
pub mod Startup
mod Samples
use packrat.Prelude.{
  ℕ, Bool, true, false, Option, none, some, List, [], ◌∷◌, ◌++◌, map, ◌&&◌, ◌||◌, ◌==◌, not,
  if◌then◌else◌,
}
use packrat.Jobs.Row.{
  Job, JobType, scan, probe, dedup, cleanup, JobStatus, interrupted, daemon_restarted,
  confirm_not_run, Params, parse_params, is_queued, is_running, ReviewRun, review_cancelled,
  StagePhase, staged, applied,
}
use packrat.Jobs.Registry.{pending_review}

-- The staging folders under the review area, in the order in which the rollback deletes them.
pub data StagingFolder : Type 0 where
  exact_dup suspect_recompression with_minor_edits perceptual_trash : StagingFolder

abbrev pub staging_folders : List StagingFolder
staging_folders = exact_dup ∷ suspect_recompression ∷ with_minor_edits ∷ perceptual_trash ∷ []

abbrev pub is_review_type : JobType → Bool
is_review_type dedup = true
is_review_type cleanup = true
is_review_type _ = false

-- `_is_destructive_apply`
unfoldable pub is_destructive_apply : JobType → Params → Bool
is_destructive_apply type p = is_review_type type && (p.confirm || p.apply)

abbrev pub interrupt_running : ℕ → Job → Job
interrupt_running now j =
    if is_running j.status
    then record j { status = interrupted; finished_at = some now; error = some daemon_restarted }
    else j

abbrev pub carve_out : ℕ → Job → Job
carve_out now j =
    if is_queued j.status && is_destructive_apply j.type (parse_params j.params_json)
    then record j { status = interrupted; finished_at = some now; error = some confirm_not_run }
    else j

-- Phases 1 and 1b, each over the rows that its query returns.
unfoldable pub reconcile_jobs : ℕ → List Job → List Job
unfolding is_destructive_apply
reconcile_jobs now js = map (carve_out now) (map (interrupt_running now) js)

pub record Rollback : Type 0 where
  pub reviews : List ReviewRun
  pub removed : List (ℕ × StagingFolder)
  pub rolled_back : List ℕ

unfoldable pub update_review : ℕ → (ReviewRun → ReviewRun) → List ReviewRun → List ReviewRun
update_review k f [] = []
update_review k f (r ∷ rs) = (if r.id == k then f r else r) ∷ update_review k f rs

abbrev cancel_review : ℕ → ReviewRun → ReviewRun
cancel_review now r = record r { status = review_cancelled; confirmed_at = some now }

-- `(stage_phase or "staged") == "applied"`
abbrev is_applied : Option StagePhase → Bool
is_applied (some applied) = true
is_applied _ = false

-- A first-stage analyze of which nothing was confirmed.
abbrev pub is_partial_analyze : ReviewRun → Bool
is_partial_analyze r = (r.stage == 1) && not (is_applied r.stage_phase)

abbrev roll_back_run : ℕ → ℕ → Option ReviewRun → Rollback → Rollback
roll_back_run now root none s = s
roll_back_run now root (some r) s =
    if is_partial_analyze r
    then record s {
      reviews = update_review r.id (cancel_review now) s.reviews;
      removed = s.removed ++ map (λ f. (root, f)) staging_folders;
      rolled_back = s.rolled_back ++ r.id ∷ [];
    }
    else s

-- `_rollback_analyze`
abbrev rollback_analyze : ℕ → Option ℕ → Rollback → Rollback
rollback_analyze now none s = s
rollback_analyze now (some root) s = roll_back_run now root (pending_review root s.reviews) s

-- Phase 2 looks at the jobs that phase 1 found running: only an analyze is rolled back.
abbrev pub is_analyze : Job → Bool
is_analyze j =
    let p = parse_params j.params_json in
    is_review_type j.type && not (p.confirm || (p.cancel || p.dry_run))

unfoldable pub rollback_jobs : ℕ → List Job → Rollback → Rollback
unfolding pending_review update_review
rollback_jobs now [] s = s
rollback_jobs now (j ∷ js) s = rollback_jobs now js (
    if is_running j.status && is_analyze j
    then rollback_analyze now (parse_params j.params_json).root_id s
    else s)

pub record Summary : Type 0 where
  pub jobs : List Job
  pub rollback : Rollback

unfoldable pub reconcile_on_startup : ℕ → List Job → List ReviewRun → Summary
unfolding reconcile_jobs rollback_jobs
reconcile_on_startup now jobs reviews = record {
  jobs = reconcile_jobs now jobs;
  rollback = rollback_jobs now jobs (record { reviews = reviews; removed = []; rolled_back = [] });
}
