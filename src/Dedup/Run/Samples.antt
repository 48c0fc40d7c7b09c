-- ===== src/Dedup/Run/Samples.antt =====
-- A run in which the first stage plans nothing, the second stages one shortcut, which is deleted, and
-- the third finds that all that it planned is gone.
use packrat.Prelude.{
  ℕ, ◌+◌, ◌≡◌, refl, inl, inr, Bool, true, false, not, ◌&&◌, if◌then◌else◌, some, leb, ◌==◌,
  Bool-cases,
}
use packrat.Dedup.Run.{Run, StageOps, Ended, ended, done, completed, analyze}
use packrat.Dedup.Run.Progress.{review_and_confirm, run-completes}

-- The staging folders that stand, the number of deleted files, and of shortcuts that a user removed.
pub record Folders : Type 0 where
  pub second : Bool
  pub third : Bool
  pub deleted : ℕ
  pub kept : ℕ

abbrev folder_there : ℕ → Folders → Bool
folder_there stage d = if stage == 2 then d.second else if stage == 3 then d.third else false

abbrev staged_second : ℕ → Folders → Ended Folders
staged_second stage d =
    if stage == 2 then ended 1 (record d { second = true }) else ended 0 (record d { third = true })

abbrev two_stages : StageOps Folders
two_stages = record {
  has_actions = λ prefer stage d. some (leb 2 stage);
  materialize = λ prefer stage d. staged_second stage d;
  has_rows = λ stage d. stage == 2;
  has_folder = λ stage d. folder_there stage d;
  apply = λ keep stage d. ended 1 (record d { deleted = d.deleted + 1 });
  remove_folder = λ stage d. record d {
    second = d.second && not (stage == 2);
    third = d.third && not (stage == 3);
  };
  remove_folders = λ d. record d { second = false; third = false };
  clear_needs_dedup = λ d. d;
}

-- The user takes a shortcut away, and no folder.
abbrev keep_one : ℕ → Folders → Folders
keep_one k d = record d { kept = d.kept + 1 }

abbrev no_folders : Folders
no_folders = record { second = false; third = false; deleted = 0; kept = 0 }

staged_there :
    (prefer : Bool) (stage : ℕ) (d : Folders)
    → (n : ℕ) × (e : Folders) × (staged_second stage d ≡ ended n e)
      × ((n == 0) ≡ false → folder_there stage e ≡ true)
staged_there prefer stage d = elim (Bool-cases (stage == 2)) [
  | inl second ↦ rw second (1, record d { second = true }, refl, λ some_staged. refl)
  | inr other ↦ rw other (0, record d { third = true }, refl, λ none_staged. cc)
]

run-completes_example :
    (run : Run) × (e : Folders) × (review_and_confirm two_stages (keep_one 3) (
        review_and_confirm two_stages
          (keep_one 2)
          (review_and_confirm two_stages (keep_one 1) (analyze two_stages false no_folders)))
      ≡ done run e)
    × (run.status ≡ completed)
run-completes_example =
    run-completes two_stages (λ prefer stage d. (leb 2 stage, refl)) staged_there
      (λ keep stage d. (1, record d { deleted = d.deleted + 1 }, refl)) false no_folders keep_one
      (λ k stage e there. there)
