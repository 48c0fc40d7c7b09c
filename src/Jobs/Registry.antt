-- ===== src/Jobs/Registry.antt =====
-- jobs/registry.py with the specs that the job modules register, and the per-root holder of
-- roots.py. A handler is not part of a spec here: its effects are steps of the queue.
use packrat.Prelude.{
  ℕ, Bool, true, false, Option, none, some, List, [], ◌∷◌, ◌||◌, ◌&&◌, ◌==◌, if◌then◌else◌,
}
use packrat.Jobs.Row.{
  JobType, scan, probe, dedup, cleanup, merge, untrash, trash_refresh, unregistered, Params,
  ReviewRun, ReviewStatus, pending, MergeRun, MergeStatus, planning, copying,
}

pub record JobSpec : Type 0 where
  pub type : JobType
  pub owned_root : Option (Params → Option ℕ)
  pub ignore_merge_holder : Bool

-- The lambdas that the specs hold.
unfoldable pub root_of_params : Params → Option ℕ
root_of_params p = p.root_id

unfoldable pub dedup_owned_root : Params → Option ℕ
dedup_owned_root p = if p.confirm || (p.cancel || p.dry_run) then none else p.root_id

unfoldable pub cleanup_owned_root : Params → Option ℕ
cleanup_owned_root p = if p.confirm || p.cancel then none else p.root_id

unfoldable pub merge_owned_root : Params → Option ℕ
merge_owned_root p = if p.dry_run then none else p.root_id

abbrev spec : JobType → Option (Params → Option ℕ) → Bool → Option JobSpec
spec t owned ignore = some (record { type = t; owned_root = owned; ignore_merge_holder = ignore })

unfoldable pub get_job_spec : JobType → Option JobSpec
get_job_spec scan = spec scan (some root_of_params) false
get_job_spec probe = spec probe (some root_of_params) false
get_job_spec dedup = spec dedup (some dedup_owned_root) false
get_job_spec cleanup = spec cleanup (some cleanup_owned_root) false
get_job_spec merge = spec merge (some merge_owned_root) true
get_job_spec untrash = spec untrash none false
get_job_spec trash_refresh = spec trash_refresh none false
get_job_spec (unregistered name) = none

-- The status tests of the two queries of `root_holder`.
abbrev pub is_pending : ReviewStatus → Bool
is_pending pending = true
is_pending _ = false

abbrev pub is_open : MergeStatus → Bool
is_open planning = true
is_open copying = true
is_open _ = false

-- SELECT ... FROM review_runs WHERE root_id=? AND status='pending'
unfoldable pub pending_review : ℕ → List ReviewRun → Option ReviewRun
pending_review root [] = none
pending_review root (r ∷ rs) =
    if (r.root_id == root) && is_pending r.status then some r else pending_review root rs

-- SELECT ... FROM merge_runs WHERE dest_root_id=? AND status IN ('planning','copying')
unfoldable pub open_merge : ℕ → List MergeRun → Option MergeRun
open_merge root [] = none
open_merge root (m ∷ ms) =
    if (m.dest_root_id == root) && is_open m.status then some m else open_merge root ms

-- The dict that `root_holder` returns, by the row that it describes.
pub data Holder : Type 0 where
  review_run : ReviewRun → Holder
  merge_run : MergeRun → Holder

abbrev merge_holder : Option MergeRun → Option Holder
merge_holder none = none
merge_holder (some m) = some (merge_run m)

abbrev holder_of : Bool → Option ReviewRun → Option MergeRun → Option Holder
holder_of ignore_merge (some r) m = some (review_run r)
holder_of true none m = none
holder_of false none m = merge_holder m

unfoldable pub root_holder : List ReviewRun → List MergeRun → ℕ → Bool → Option Holder
unfolding pending_review open_merge
root_holder reviews merges root ignore_merge =
    holder_of ignore_merge (pending_review root reviews) (open_merge root merges)
