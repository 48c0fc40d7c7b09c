-- ===== src/Jobs/Queue/Pumping.antt =====
-- Induction over the loop of `_pump`, for every proof about it.
use packrat.Prelude.{
  ℕ, ◌≡◌, refl, List, [], ◌∷◌, none, some, false, Bool-cases, Option-cases, arith, suc, ◌⊎◌, inl,
  inr,
}
use packrat.Jobs.Table.{backlog, max_id}
use packrat.Jobs.Row.{Job, JobType, Params}
use packrat.Jobs.Queue.{
  Queue, Verdict, no_spec, runnable, blocked, verdict, fail_unknown, start, pump_rows, pump, submit,
  create_job_row, dedup_probe,
}

pub Verdict-cases : (v : Verdict) → (v ≡ no_spec) ⊎ (v ≡ runnable) ⊎ (v ≡ blocked)
Verdict-cases no_spec = inl refl
Verdict-cases runnable = inr (inl refl)
Verdict-cases blocked = inr (inr refl)

-- `P` is what is known of the rows left and the state, and `R` is what the loop ends in.
pub record Rule {ℓ} (now : ℕ) (P : List Job → Queue → Type ℓ) (R : Queue → Type ℓ) : Type ℓ where
  pub ends : (q : Queue) → P [] q → R q
  pub fails :
      (j : Job) (rows : List Job) (q : Queue)
      → verdict q.reviews q.merges j ≡ no_spec
      → P (j ∷ rows) q
      → P rows (fail_unknown now j q)
  pub starts :
      (j : Job) (rows : List Job) (q : Queue)
      → verdict q.reviews q.merges j ≡ runnable
      → P (j ∷ rows) q
      → R (start now j.id q)
  pub skips :
      (j : Job) (rows : List Job) (q : Queue)
      → verdict q.reviews q.merges j ≡ blocked
      → P (j ∷ rows) q
      → P rows q

module _ {ℓ} {now : ℕ} {P : List Job → Queue → Type ℓ} {R : Queue → Type ℓ}
    (rule : Rule now P R) where
  pub pump_rows_ind : (rows : List Job) (q : Queue) → P rows q → R (pump_rows now rows q)
  unfolding pump_rows
  pump_rows_ind [] q h = rule.ends q h
  pump_rows_ind (j ∷ rows) q h = elim (Verdict-cases (verdict q.reviews q.merges j)) [
    | inl e ↦
        rw (e, pump_rows) (pump_rows_ind rows (fail_unknown now j q) (rule.fails j rows q e h))
    | inr (inl e) ↦ rw (e, pump_rows) (rule.starts j rows q e h)
    | inr (inr e) ↦ rw (e, pump_rows) (pump_rows_ind rows q (rule.skips j rows q e h))
  ]

  -- The whole of `_pump`: either it does nothing, or the slot is free and the loop runs.
  pub pump_ind :
      (q : Queue)
      → R q
      → (q.running_job_id ≡ none → q.stopping ≡ false → P (backlog q.jobs) q)
      → R (pump now q)
  unfolding pump
  pump_ind q unchanged ready = elim (Bool-cases q.stopping) [
    | inl on ↦ simp on unchanged
    | inr off ↦ elim (Option-cases q.running_job_id) [
      | inl free ↦ simp (off, free) (pump_rows_ind (backlog q.jobs) q (ready free off))
      | inr (k, busy) ↦ simp (off, busy) unchanged
    ]
  ]

-- A submission that is accepted finds a waiting probe, or appends a row and pumps.
pub submit_cases :
    (now : ℕ) (type : JobType) (params : Params) (q : Queue) {q' : Queue} {k : ℕ}
    → submit now type params q ≡ some (q', k)
    → (q' ≡ q)
      ⊎ ((q' ≡ pump now (create_job_row now type params q))
          × (k ≡ suc (max_id q.jobs))
          × (dedup_probe type params q.jobs ≡ none))
unfolding submit
submit_cases now type params q e = ground arith
