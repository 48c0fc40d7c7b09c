-- ===== src/Dedup/Run.antt =====
-- The life of a dedup run: _analyze, _confirm, _cancel, _first_nonempty_stage, _stage_and_pause and
-- _finalize_completed of src/packrat/jobs/dedup.py, on the run's row of review_runs. What a stage
-- plans, stages and applies, on a state of type D, is an interface; each of the three may also stop,
-- by an exception or a cancel, and then leaves the state that it has come to. Planning only reads.
pub mod Progress
mod Samples
use packrat.Prelude.{
  ℕ, zero, suc, ◌+◌, ◌-◌, ◌*◌, ◌/◌, ◌%◌, ◌≤◌, ◌<◌, min, max, ◌≡◌, refl, sym, ap, ◌∙◌, ◌≢◌, ◌⊎◌, inl,
  inr, Bool, true, false, not, ◌&&◌, ◌||◌, Option, none, some, List, [], ◌∷◌, ◌++◌, map, arith,
  length, All, All-imp, All-snoc, All-append, All-at, Has, ltb, leb, ◌==◌, if◌then◌else◌,
  Bool-cases, Option-cases, ==_iff, ==_false, leb→le,
}

pub data Status : Type 0 where
  pending completed cancelled : Status

-- `applied` is the value 'applied' of stage_phase.
pub record Run : Type 0 where
  pub status : Status
  pub stage : ℕ
  pub applied : Bool
  pub prefer_internal : Bool
  pub deleted_count : ℕ

pub data Ended (D : Type 0) : Type 0 where
  stopped : D → Ended D
  ended : ℕ → D → Ended D

pub record StageOps (D : Type 0) : Type 0 where
  pub has_actions : Bool → ℕ → D → Option Bool
  pub materialize : Bool → ℕ → D → Ended D
  pub has_rows : ℕ → D → Bool
  pub has_folder : ℕ → D → Bool
  pub apply : Bool → ℕ → D → Ended D
  pub remove_folder : ℕ → D → D
  pub remove_folders : D → D
  pub clear_needs_dedup : D → D

pub record Params : Type 0 where
  pub prefer_internal : Bool
  pub keep_suggested : Bool

pub data Error : Type 0 where
  nothing_pending preference_conflict no_suggested_leads folder_missing interrupted : Error

-- A job ends with the run's row, or raises and leaves the row as far as it has come, if there is one;
-- `out_of_fuel` is the model's alone.
pub data Result (D : Type 0) : Type 0 where
  done : Run → D → Result D
  raised : Error → Option Run → D → Result D
  out_of_fuel : Result D

unfoldable pub is_pending : Status → Bool
is_pending pending = true
is_pending completed = false
is_pending cancelled = false

module _ {D : Type 0} (ops : StageOps D) where
  unfoldable pub found_or : ℕ → Option (Option ℕ) → Option Bool → Option (Option ℕ)
  found_or stage later none = none
  found_or stage later (some true) = some (some stage)
  found_or stage later (some false) = later

  -- The stages from `stage` on, of which `left` are left; `none` where a plan stops.
  unfoldable pub nonempty_from : Bool → ℕ → ℕ → D → Option (Option ℕ)
  nonempty_from prefer zero stage d = some none
  nonempty_from prefer (suc left) stage d =
      let later = nonempty_from prefer left (stage + 1) d in
      found_or stage later (ops.has_actions prefer stage d)

  -- range(max(start, 1), 4)
  unfoldable pub first_nonempty_stage : Bool → ℕ → D → Option (Option ℕ)
  first_nonempty_stage prefer start d = nonempty_from prefer (4 - max start 1) (max start 1) d

  unfoldable pub finalize_completed : Run → D → Result D
  finalize_completed run d =
      done (record run { status = completed }) (ops.clear_needs_dedup (ops.remove_folders d))

  -- The run ends when no stage is left, and goes on at the next one otherwise.
  unfoldable pub finalize_or : Option (Option ℕ) → (ℕ → Result D) → Run → D → Result D
  finalize_or none next run d = raised interrupted (some run) d
  finalize_or (some none) next run d = finalize_completed run d
  finalize_or (some (some stage)) next run d = next stage

  -- The stages are staged until one has something to review: fuel for each stage that is left.
  unfoldable pub stage_and_pause : ℕ → ℕ → Run → D → Result D
  stage_and_pause zero stage run d = out_of_fuel
  stage_and_pause (suc fuel) stage run d = elim (ops.materialize run.prefer_internal stage d) [
    | stopped e ↦ raised interrupted (some run) e
    | ended staged e ↦
        let at_stage : Run = record run { stage = stage; applied = false } in
        let emptied = ops.remove_folder stage e in
        if staged == 0
        then finalize_or (first_nonempty_stage run.prefer_internal (stage + 1) emptied)
            (λ next. stage_and_pause fuel next at_stage emptied) at_stage emptied
        else done at_stage e
  ]

  unfoldable pub advance : Run → D → Result D
  advance run d =
      finalize_or (first_nonempty_stage run.prefer_internal (run.stage + 1) d)
        (λ next. stage_and_pause 3 next run d) run d

  unfoldable pub apply_and_advance : Bool → Run → D → Result D
  apply_and_advance keep run d = elim (ops.apply keep run.stage d) [
    | stopped e ↦ raised interrupted (some run) e
    | ended deleted e ↦
        advance (record run { applied = true; deleted_count = run.deleted_count + deleted })
          (ops.remove_folder run.stage e)
  ]

  unfoldable pub confirm_stage : Bool → Run → D → Result D
  confirm_stage keep run d =
      if run.applied
      then advance run d
      else if ops.has_rows run.stage d && not (ops.has_folder run.stage d)
      then raised folder_missing (some run) d
      else apply_and_advance keep run d

  unfoldable pub confirm : Params → Run → D → Result D
  confirm params run d =
      if not (is_pending run.status)
      then raised nothing_pending (some run) d
      else if params.prefer_internal && not run.prefer_internal
      then raised preference_conflict (some run) d
      else if params.keep_suggested && not (run.stage == 2)
      then raised no_suggested_leads (some run) d
      else confirm_stage params.keep_suggested run d

  unfoldable pub open_run : Bool → ℕ → Run
  open_run prefer stage = record {
    status = pending;
    stage = stage;
    applied = false;
    prefer_internal = prefer;
    deleted_count = 0;
  }

  -- A root with nothing to review gets a completed run.
  unfoldable pub open_at : Option (Option ℕ) → Bool → D → Result D
  open_at none prefer d = raised interrupted none d
  open_at (some none) prefer d =
      done (record (open_run prefer 1) { status = completed; applied = true })
        (ops.clear_needs_dedup d)
  open_at (some (some stage)) prefer d = stage_and_pause 3 stage (open_run prefer stage) d

  unfoldable pub analyze : Bool → D → Result D
  analyze prefer d = open_at (first_nonempty_stage prefer 1 d) prefer d

  unfoldable pub cancel : Run → D → Result D
  cancel run d =
      if is_pending run.status
      then done (record run { status = cancelled }) (ops.remove_folders d)
      else raised nothing_pending (some run) d
