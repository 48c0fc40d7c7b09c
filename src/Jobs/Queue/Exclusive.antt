-- ===== src/Jobs/Queue/Exclusive.antt =====
-- The per-root exclusivity of the dequeue gate, and the front of the backlog.
use packrat.Prelude.{
  ℕ, ◌+◌, ◌≤◌, ◌≡◌, ◌≢◌, refl, sym, ap, ◌∙◌, Bool, true, false, none, some, List, [], ◌∷◌, arith,
  All, All-imp, Has, if◌then◌else◌, inr, ◌==◌,
}
use mathlib.Core.Path.{subst}
use mathlib.Core.Option
use packrat.Jobs.Row.{Job, parse_params, is_queued, ReviewRun, pending, MergeRun}
use packrat.Jobs.Table.{comes_before, find_job, update_job, top_priority}
use packrat.Jobs.Table.Update.{find_job-update, All-update}
use packrat.Jobs.Registry.{JobSpec, get_job_spec, root_holder, pending_review, open_merge, is_open}
use packrat.Jobs.Queue.{Queue, verdict, runnable, is_runnable, owned, pump, prioritize, broadcast}
use packrat.Jobs.Queue.Dispatch.{Picked, pump-first_runnable, pump-busy}

pending_review-none :
    (root : ℕ) (rs : List ReviewRun)
    → pending_review root rs ≡ none
    → All (λ r. r.root_id ≡ root → r.status ≢ pending) rs
unfolding pending_review
pending_review-none root [] e = tt
pending_review-none root (r ∷ rs) e =
    ((λ at p. ground arith), pending_review-none root rs (ground arith))

open_merge-none :
    (root : ℕ) (ms : List MergeRun)
    → open_merge root ms ≡ none
    → All (λ m. m.dest_root_id ≡ root → is_open m.status ≡ false) ms
unfolding open_merge
open_merge-none root [] e = tt
open_merge-none root (m ∷ ms) e = ((λ at. ground arith), open_merge-none root ms (ground arith))

-- No review of the root is pending, and no merge into it is open, but for a job that resumes one.
pub record Unheld (reviews : List ReviewRun) (merges : List MergeRun) (ignore : Bool) (root : ℕ)
    : Type 0 where
  pub no_review : All (λ r. r.root_id ≡ root → r.status ≢ pending) reviews
  pub no_merge : ignore ≡ false → All (λ m. m.dest_root_id ≡ root → is_open m.status ≡ false) merges

root_holder-none :
    (reviews : List ReviewRun) (merges : List MergeRun) (root : ℕ) (ignore : Bool)
    → root_holder reviews merges root ignore ≡ none
    → Unheld reviews merges ignore root
unfolding root_holder
root_holder-none reviews merges root ignore e = record {
  no_review = pending_review-none root reviews (ground arith);
  no_merge = λ strict. open_merge-none root merges (ground arith);
}

-- A job that a pump starts owns no root that another operation holds: for the root that its spec
-- gives for its parameters no review is pending, and no merge is open unless the spec says that the
-- job may resume it.
pub pump-exclusive :
    (now k root : ℕ) (q : Queue)
    → q.running_job_id ≡ none
    → q.stopping ≡ false
    → (pump now q).running_job_id ≡ some k
    → (j : Job) × Has j q.jobs
      × (j.id ≡ k)
      × (is_queued j.status ≡ true)
      × ((spec : JobSpec)
          → get_job_spec j.type ≡ some spec
          → owned spec.owned_root (parse_params j.params_json) ≡ some root
          → Unheld q.reviews q.merges spec.ignore_merge_holder root)
pump-exclusive now k root q free off started =
    let picked : Picked q.reviews q.merges q.jobs (some k) =
      subst (Picked q.reviews q.merges q.jobs) started (pump-first_runnable now q free off) in
    let (j, e, next) = picked in
    (
      j,
      next.row,
      e,
      next.waits,
      λ spec of_type owns.
          root_holder-none q.reviews q.merges root spec.ignore_merge_holder
            (gate q.reviews q.merges j spec root next.can_run of_type owns),
    )
  where
    gate :
        (reviews : List ReviewRun) (merges : List MergeRun) (j : Job) (spec : JobSpec) (root : ℕ)
        → verdict reviews merges j ≡ runnable
        → get_job_spec j.type ≡ some spec
        → owned spec.owned_root (parse_params j.params_json) ≡ some root
        → root_holder reviews merges root spec.ignore_merge_holder ≡ none
    gate reviews merges j spec root v s o = unfold verdict is_runnable in ground arith

-- A prioritized job stands in front of the whole backlog.
priority-le-top :
    (js : List Job) → All (λ j. is_queued j.status ≡ true → j.priority ≤ top_priority js) js
unfolding top_priority
priority-le-top [] = tt
priority-le-top (j ∷ js) =
    ((λ on. ground arith), All-imp js (λ i h on. ground (arith, h on)) (priority-le-top js))

abbrev pub InFront : Job → Job → Type 0
InFront j i = i.id ≢ j.id → is_queued i.status ≡ true → comes_before j i ≡ true

find_job-id : (k : ℕ) (js : List Job) (j : Job) → find_job k js ≡ some j → j.id ≡ k
unfolding find_job
find_job-id k [] j e = cc
find_job-id k (i ∷ js) j e = ground (arith, find_job-id k js j)

-- The bumped table, before the pump.
abbrev to_front : ℕ → List Job → Job → Job
to_front k js j = record j { priority = top_priority js + 1 }

prioritize-busy :
    (now k r : ℕ) (q : Queue) (j : Job)
    → q.running_job_id ≡ some r
    → find_job k q.jobs ≡ some j
    → is_queued j.status ≡ true
    → ((prioritize now k q).1 ≡ true)
      × ((prioritize now k q).0.jobs ≡ update_job k (to_front k q.jobs) q.jobs)
unfolding prioritize broadcast
prioritize-busy now k r q j busy found on =
    simp (found, on) (refl, ap (λ (s : Queue). s.jobs) (pump-busy now r _ (inr busy)))

front-of :
    (top : ℕ) (j i : Job)
    → i.priority ≤ top
    → comes_before (record j { priority = top + 1 }) i ≡ true
unfolding comes_before
front-of top j i h = ground arith

-- While a job runs, a queued job that is prioritized stays queued, and comes before every other
-- queued job in the order of the query.
pub prioritize-front :
    (now k r : ℕ) (q : Queue) (j : Job)
    → q.running_job_id ≡ some r
    → find_job k q.jobs ≡ some j
    → is_queued j.status ≡ true
    → ((prioritize now k q).1 ≡ true)
      × ((i : Job) × (find_job k (prioritize now k q).0.jobs ≡ some i)
          × (is_queued i.status ≡ true)
          × All (InFront i) (prioritize now k q).0.jobs)
prioritize-front now k r q j busy found on =
    let (accepted, table) = prioritize-busy now k r q j busy found on in
    let f = to_front k q.jobs in
    (
      accepted,
      (f j, rw table (find_job-update k k f q.jobs (λ j. refl) ∙ hit), on, rw table in_front),
    )
  where
    hit :
        (if k == k then Option.map (to_front k q.jobs) (find_job k q.jobs) else find_job k q.jobs)
        ≡ some (to_front k q.jobs j)
    hit = rw found (ground arith)

    in_front : All (InFront (to_front k q.jobs j)) (update_job k (to_front k q.jobs) q.jobs)
    in_front =
        All-update k (to_front k q.jobs) q.jobs
          (λ i e _ ne. absurd (ne (e ∙ sym (find_job-id k q.jobs j found))))
          (λ i _ h ne waits. front-of (top_priority q.jobs) j i (h waits)) (priority-le-top q.jobs)
