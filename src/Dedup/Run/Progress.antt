-- ===== src/Dedup/Run/Progress.antt =====
-- Every confirm that nothing stops brings the run nearer to its end.
use packrat.Prelude.{
  ℕ, zero, suc, ◌+◌, ◌-◌, ◌≤◌, ◌<◌, max, ◌≡◌, refl, sym, ◌≢◌, ◌⊎◌, inl, inr, Bool, true, false, not,
  ◌&&◌, Option, none, some, arith, ◌==◌, if◌then◌else◌, Bool-cases,
}
use mathlib.Core.Path.{subst}
use packrat.Dedup.Run.{
  Status, pending, completed, cancelled, Run, ended, StageOps, Params, nothing_pending,
  folder_missing, Result, done, raised, out_of_fuel, is_pending, found_or, nonempty_from,
  first_nonempty_stage, finalize_completed, finalize_or, stage_and_pause, advance,
  apply_and_advance, confirm_stage, confirm, open_run, open_at, analyze,
}

abbrev pub no_flags : Params
no_flags = record { prefer_internal = false; keep_suggested = false }

module _ {D : Type 0} (ops : StageOps D) where
  -- A review by the user, which may change the state, and a confirm, while the run is pending; a run
  -- that is over stays as it is.
  abbrev pub review_and_confirm : (D → D) → Result D → Result D
  review_and_confirm visit (done run d) =
      if is_pending run.status then confirm ops no_flags run (visit d) else done run d
  review_and_confirm visit (raised e run d) = raised e run d
  review_and_confirm visit out_of_fuel = out_of_fuel

-- Planning, staging and applying end, whatever the state is; and where staging has put something into
-- a stage's folder, the folder is there.
module _ {D : Type 0} (ops : StageOps D)
    (plans : (prefer : Bool) (stage : ℕ) (d : D)
      → (b : Bool) × (ops.has_actions prefer stage d ≡ some b))
    (stages : (prefer : Bool) (stage : ℕ) (d : D)
      → (n : ℕ) × (e : D) × (ops.materialize prefer stage d ≡ ended n e)
        × ((n == 0) ≡ false → ops.has_folder stage e ≡ true))
    (applies : (keep : Bool) (stage : ℕ) (d : D)
      → (n : ℕ) × (e : D) × (ops.apply keep stage d ≡ ended n e)) where
  -- The first stage with actions, if there is one, is within the range.
  Planned : ℕ → ℕ → Option (Option ℕ) → Type 0
  Planned low high r =
      (o : Option ℕ) × (r ≡ some o) × ((s : ℕ) → o ≡ some s → (low ≤ s) × (s < high))

  planned_or :
      (left stage : ℕ) (later : Option (Option ℕ)) (b : Bool)
      → Planned (stage + 1) (stage + 1 + left) later
      → Planned stage (stage + suc left) (found_or ops stage later (some b))
  unfolding Planned found_or
  planned_or left stage later true rest = (
    some stage,
    refl,
    λ s e. let same : stage ≡ s = ground arith in (omega (arith, same), omega (arith, same)),
  )
  planned_or left stage later false (o, ends, within) =
      (o, ends, λ s e. let r = within s e in (omega (arith, r.0), omega (arith, r.1)))

  nonempty_from-Planned :
      (prefer : Bool) (left stage : ℕ) (d : D)
      → Planned stage (stage + left) (nonempty_from ops prefer left stage d)
  unfolding nonempty_from
  nonempty_from-Planned prefer zero stage d = unfold Planned in (none, refl, λ s e. cc)
  nonempty_from-Planned prefer (suc left) stage d =
      let (b, answer) = plans prefer stage d in
      rw answer (planned_or left stage _ b (nonempty_from-Planned prefer left (stage + 1) d))

  first_nonempty-Planned :
      (prefer : Bool) (start : ℕ) (d : D)
      → 1 ≤ start
      → Planned start 4 (first_nonempty_stage ops prefer start d)
  unfolding first_nonempty_stage Planned
  first_nonempty-Planned prefer start d positive =
      let (o, ends, within) = nonempty_from-Planned prefer (4 - max start 1) (max start 1) d in
      (
        o,
        ends,
        λ s e. let r = within s e in (omega (arith, r.0, positive), omega (arith, r.0, r.1)),
      )

  -- The run is over, or it waits for a review at a later stage, with the stage's folder in its place.
  abbrev pub Onward : ℕ → Result D → Type 0
  Onward stage (done run d) =
      (run.status ≡ completed)
      ⊎ ((run.status ≡ pending)
          × (stage < run.stage)
          × (run.stage ≤ 3)
          × (run.applied ≡ false)
          × (ops.has_folder run.stage d ≡ true))
  Onward stage (raised e run d) = ⊥
  Onward stage out_of_fuel = ⊥

  finalize_or-Onward :
      (b low : ℕ) (run : Run) (d : D) (r : Option (Option ℕ)) (next : ℕ → Result D)
      → Planned low 4 r
      → ((s : ℕ) → low ≤ s → s ≤ 3 → Onward b (next s))
      → Onward b (finalize_or ops r next run d)
  unfolding finalize_or finalize_completed Planned
  finalize_or-Onward b low run d r next (none, ends, within) onward = rw ends (inl refl)
  finalize_or-Onward b low run d r next (some s, ends, within) onward =
      let range = within s refl in rw ends (onward s range.0 (omega (arith, range.1)))

  stage_and_pause-Onward :
      (b fuel stage : ℕ) (run : Run) (d : D)
      → run.status ≡ pending
      → b < stage
      → stage ≤ 3
      → 4 ≤ stage + fuel
      → Onward b (stage_and_pause ops fuel stage run d)
  unfolding stage_and_pause
  stage_and_pause-Onward b zero stage run d open_ above range enough =
      absurd (omega (arith, range, enough))
  stage_and_pause-Onward b (suc fuel) stage run d open_ above range enough =
      let (n, e, ends, folder) = stages run.prefer_internal stage d in
      rw (ends, stage_and_pause)
        (elim (Bool-cases (n == 0)) [
          | inl empty ↦ rw empty (
              finalize_or-Onward b (stage + 1) _ _ _ _
                (first_nonempty-Planned run.prefer_internal (stage + 1) _ (omega arith))
                (λ s low high.
                  stage_and_pause-Onward b fuel s _ _ open_ (omega (arith, low, above)) high
                    (omega (arith, low, enough))))
          | inr some_left ↦ rw some_left (inr (open_, above, range, refl, folder some_left))
        ])

  advance-Onward : (run : Run) (d : D) → run.status ≡ pending → Onward run.stage (advance ops run d)
  unfolding advance
  advance-Onward run d open_ =
      finalize_or-Onward run.stage (run.stage + 1) run d _ _
        (first_nonempty-Planned run.prefer_internal (run.stage + 1) d (omega arith))
        (λ s low high.
          stage_and_pause-Onward run.stage 3 s run d open_ (omega (arith, low)) high
            (omega (arith, low)))

  apply-Onward :
      (keep : Bool) (run : Run) (d : D)
      → run.status ≡ pending
      → Onward run.stage (apply_and_advance ops keep run d)
  unfolding apply_and_advance
  apply-Onward keep run d open_ =
      let (n, e, ends) = applies keep run.stage d in
      rw (ends, apply_and_advance) (advance-Onward _ _ open_)

  either_way :
      (was_applied missing keep : Bool) (run : Run) (d : D)
      → run.status ≡ pending
      → ((missing ≡ true) × (was_applied ≡ false))
        ⊎ Onward run.stage (
            if was_applied
            then advance ops run d
            else if missing
            then raised folder_missing (some run) d
            else apply_and_advance ops keep run d)
  either_way true missing keep run d open_ = inr (advance-Onward run d open_)
  either_way false true keep run d open_ = inl (refl, refl)
  either_way false false keep run d open_ = inr (apply-Onward keep run d open_)

  guard_passed :
      (status : Status) (run : Run) (d : D) (r : Result D)
      → status ≡ pending
      → (if not (is_pending status) then raised nothing_pending (some run) d else r) ≡ r
  unfolding is_pending
  guard_passed pending run d r e = refl
  guard_passed completed run d r e = cc
  guard_passed cancelled run d r e = cc

  -- Without flags, and with the staging folder in its place, a confirm of a pending run does not
  -- raise: it ends the run, or leaves it pending at a later stage, the third at most, staged for
  -- review.
  pub confirm-Onward :
      (run : Run) (d : D)
      → run.status ≡ pending
      → ops.has_folder run.stage d ≡ true
      → Onward run.stage (confirm ops no_flags run d)
  unfolding confirm confirm_stage
  confirm-Onward run d open_ folder =
      subst (Onward run.stage) (sym (guard_passed run.status run d _ open_))
        (elim (either_way run.applied (ops.has_rows run.stage d && not (ops.has_folder run.stage d))
          false run d open_) [
            | inl (gone, _) ↦ absurd (folder_there (ops.has_rows run.stage d) _ folder gone)
            | inr onward ↦ onward
          ])
    where
      folder_there : (a b : Bool) → b ≡ true → (a && not b) ≢ true
      folder_there a b e h = ground arith

  over_stays :
      (status : Status) (again same : Result D)
      → status ≡ completed
      → (if is_pending status then again else same) ≡ same
  unfolding is_pending
  over_stays pending again same e = cc
  over_stays completed again same e = refl
  over_stays cancelled again same e = refl

  open_confirms :
      (status : Status) (again same : Result D)
      → status ≡ pending
      → (if is_pending status then again else same) ≡ again
  unfolding is_pending
  open_confirms pending again same e = refl
  open_confirms completed again same e = cc
  open_confirms cancelled again same e = cc

  Onward-later : (m n : ℕ) (r : Result D) → m ≤ n → Onward n r → Onward m r
  Onward-later m n (done run d) le (inl over) = inl over
  Onward-later m n (done run d) le (inr (open_, above, range, fresh, there)) =
      inr (open_, omega (arith, le, above), range, fresh, there)
  Onward-later m n (raised e run d) le onward = onward
  Onward-later m n out_of_fuel le onward = onward

  again-Onward :
      (n : ℕ) (visit : D → D) (r : Result D)
      → ((stage : ℕ) (d : D)
          → ops.has_folder stage d ≡ true
          → ops.has_folder stage (visit d) ≡ true)
      → Onward n r
      → Onward (suc n) (review_and_confirm ops visit r)
  again-Onward n visit (done run d) keeps (inl over) =
      subst (Onward (suc n)) (sym (over_stays run.status _ (done run d) over)) (inl over)
  again-Onward n visit (done run d) keeps (inr (open_, above, range, fresh, there)) =
      subst (Onward (suc n)) (sym (open_confirms run.status _ (done run d) open_)) (
        Onward-later (suc n) run.stage _ above
          (confirm-Onward run (visit d) open_ (keeps run.stage d there)))
  again-Onward n visit (raised e run d) keeps onward = absurd onward
  again-Onward n visit out_of_fuel keeps onward = absurd onward

  opened-Onward :
      (r : Option (Option ℕ)) (prefer : Bool) (d : D)
      → Planned 1 4 r
      → Onward 0 (open_at ops r prefer d)
  unfolding open_at open_run Planned
  opened-Onward r prefer d (none, ends, within) = rw ends (inl refl)
  opened-Onward r prefer d (some stage, ends, within) =
      let range = within stage refl in
      rw ends (
        stage_and_pause-Onward 0 3 stage _ d refl (omega (arith, range.0)) (omega (arith, range.1))
          (omega (arith, range.0)))

  over :
      (r : Result D)
      → Onward 3 r
      → (run : Run) × (d : D) × (r ≡ done run d) × (run.status ≡ completed)
  over (done run d) (inl ends) = (run, d, refl, ends)
  over (done run d) (inr (open_, above, range, fresh, there)) = absurd (omega (arith, above, range))
  over (raised e run d) onward = absurd onward
  over out_of_fuel onward = absurd onward

  -- Three confirms without flags end any run that an analyze has opened, whatever each stage plans,
  -- stages and deletes, and whatever the user changes before each of them without taking a staging
  -- folder away. Planning, staging and applying end without an exception or a cancel, and after a
  -- staging that has put something into a stage's folder the folder is there.
  pub run-completes :
      (prefer : Bool) (d : D) (visit : ℕ → D → D)
      → ((k stage : ℕ) (e : D)
          → ops.has_folder stage e ≡ true
          → ops.has_folder stage (visit k e) ≡ true)
      → (run : Run) × (e : D) × (review_and_confirm ops (visit 3) (
            review_and_confirm ops
              (visit 2)
              (review_and_confirm ops (visit 1) (analyze ops prefer d)))
          ≡ done run e)
        × (run.status ≡ completed)
  unfolding analyze
  run-completes prefer d visit keeps = over _ (
      again-Onward 2 (visit 3) _ (keeps 3) (
        again-Onward 1 (visit 2) _ (keeps 2) (
          again-Onward 0 (visit 1) _ (keeps 1)
            (opened-Onward _ prefer d (first_nonempty-Planned prefer 1 d (omega arith))))))
