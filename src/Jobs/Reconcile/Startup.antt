-- ===== src/Jobs/Reconcile/Startup.antt =====
-- What a daemon start does to the jobs and the reviews that it finds.
use packrat.Prelude.{
  ℕ, ◌≡◌, refl, ap, ◌⊎◌, inl, inr, true, false, some, List, [], ◌∷◌, arith, All, ◌&&◌, Bool-cases,
}
use packrat.Jobs.Row.{
  Job, JobType, dedup, cleanup, daemon_restarted, confirm_not_run, running, queued, interrupted,
  parse_params, is_queued, is_running, is_terminal, ReviewRun,
}
use packrat.Jobs.Reconcile.{
  is_review_type, is_destructive_apply, interrupt_running, carve_out, reconcile_jobs, Rollback,
  rollback_jobs, reconcile_on_startup,
}

-- A confirm of a dedup or of a cleanup, or a cleanup that applies at once: what deletes the files of a
-- review.
pub record Applies (j : Job) : Type 0 where
  pub review : (j.type ≡ dedup) ⊎ (j.type ≡ cleanup)
  pub flag :
      ((parse_params j.params_json).confirm ≡ true) ⊎ ((parse_params j.params_json).apply ≡ true)

-- What becomes of one row.
pub record Reconciled (j i : Job) : Type 0 where
  pub stopped : j.status ≡ running → (i.status ≡ interrupted) × (i.error ≡ some daemon_restarted)
  pub carved :
      j.status ≡ queued → Applies j → (i.status ≡ interrupted) × (i.error ≡ some confirm_not_run)
  pub drains : j.status ≡ queued → ¬ Applies j → i ≡ j
  pub history : is_terminal j.status ≡ true → i ≡ j

abbrev pub AllReconciled : List Job → List Job → Type 0
AllReconciled [] [] = Unit
AllReconciled [] (i ∷ is) = ⊥
AllReconciled (j ∷ js) [] = ⊥
AllReconciled (j ∷ js) (i ∷ is) = Reconciled j i × AllReconciled js is

pub Applies-destructive :
    (j : Job) → Applies j → is_destructive_apply j.type (parse_params j.params_json) ≡ true
unfolding is_destructive_apply
Applies-destructive j a = elim a.review [
  | inl type ↦ elim a.flag [ inl confirms ↦ rw (type, confirms) refl | inr applies ↦ ground arith ]
  | inr type ↦ elim a.flag [ inl confirms ↦ rw (type, confirms) refl | inr applies ↦ ground arith ]
]

review_type : (type : JobType) → is_review_type type ≡ true → (type ≡ dedup) ⊎ (type ≡ cleanup)
review_type type e = ground arith

destructive-Applies :
    (j : Job) → is_destructive_apply j.type (parse_params j.params_json) ≡ true → Applies j
unfolding is_destructive_apply
destructive-Applies j e = record {
  review = review_type j.type (ground arith);
  flag = elim (Bool-cases (parse_params j.params_json).confirm) [
    | inl confirms ↦ inl confirms
    | inr other ↦ inr (ground arith)
  ];
}

reconcile_row : (now : ℕ) (j : Job) → Reconciled j (carve_out now (interrupt_running now j))
reconcile_row now j = record {
  stopped = λ e. (ground arith, ground arith);
  carved = λ e a. let d = Applies-destructive j a in (ground arith, ground arith);
  drains = λ e n. elim (Bool-cases (is_destructive_apply j.type (parse_params j.params_json))) [
    | inl destroys ↦ absurd (n (destructive-Applies j destroys))
    | inr plain ↦ ground arith
  ];
  history = λ e. ground arith;
}

pub reconcile_jobs-exact : (now : ℕ) (js : List Job) → AllReconciled js (reconcile_jobs now js)
unfolding reconcile_jobs
reconcile_jobs-exact now [] = tt
reconcile_jobs-exact now (j ∷ js) = (reconcile_row now j, reconcile_jobs-exact now js)

abbrev Quiet : Job → Type 0
Quiet j =
    (is_running j.status ≡ false)
    × ((is_queued j.status && is_destructive_apply j.type (parse_params j.params_json)) ≡ false)

reconciled-Quiet : (now : ℕ) (js : List Job) → All Quiet (reconcile_jobs now js)
unfolding reconcile_jobs
reconciled-Quiet now [] = tt
reconciled-Quiet now (j ∷ js) = ((ground arith, ground arith), reconciled-Quiet now js)

Quiet-reconcile : (now : ℕ) (js : List Job) → All Quiet js → reconcile_jobs now js ≡ js
unfolding reconcile_jobs
Quiet-reconcile now [] h = refl
Quiet-reconcile now (j ∷ js) h = ground (arith, Quiet-reconcile now js h.1)

Quiet-rollback :
    (now : ℕ) (js : List Job) (s : Rollback) → All Quiet js → rollback_jobs now js s ≡ s
unfolding rollback_jobs
Quiet-rollback now [] s h = refl
Quiet-rollback now (j ∷ js) s h = rw h.0.0 (Quiet-rollback now js s h.1)

-- A second start right after the first, with whatever clock, changes nothing: no row, no review,
-- and no staging folder is deleted.
pub reconcile-idempotent :
    (now later : ℕ) (jobs : List Job) (reviews : List ReviewRun)
    → let first = reconcile_on_startup now jobs reviews in
      let second = reconcile_on_startup later first.jobs first.rollback.reviews in
      (second.jobs ≡ first.jobs)
      × (second.rollback.reviews ≡ first.rollback.reviews)
      × (second.rollback.removed ≡ [])
unfolding reconcile_on_startup
reconcile-idempotent now later jobs reviews =
    let quiet = reconciled-Quiet now jobs in
    let same = Quiet-rollback later (reconcile_jobs now jobs) _ quiet in
    (
      Quiet-reconcile later _ quiet,
      ap (λ (s : Rollback). s.reviews) same,
      ap (λ (s : Rollback). s.removed) same,
    )
