-- ===== src/Ignore/Samples.antt =====
-- The pattern "?" as the only glob of a root, the folder "ab/c", and the file "a.lnk" in it.
use packrat.Prelude.{ℕ, ◌≡◌, refl, inl, inr, true, false, List, [], ◌∷◌, ◌++◌, map, All, Has, ◌==◌}
use packrat.Paths.{FilePath, same_path, ends_sep, has_sep}
use packrat.Ignore.{
  opt_dirs, any_one, Rule, star_piece, next_piece, pieces, drop_last, split_anchor, with_anchor,
  translate, run_then, one_then, not_slash, not_newline, is_slash, Settings, is_one_of, matches,
  joined, name_of, matches_file, is_file_ignored, is_dir_pruned, is_blank, compile_all, build,
}
use packrat.Ignore.Sentinel.{is_dir_pruned_sentinel}
use packrat.Ignore.Shortcuts.{lnk, KeepsLnk, is_file_ignored_shortcut}

abbrev same_case : ℕ → ℕ
same_case c = c

abbrev settings : Settings
settings = record {
  in_class = λ text c. false;
  has_media_ext = λ name. true;
  is_space = λ c. c == 32;
}

abbrev rules : List Rule
rules = build same_case settings ((63 ∷ []) ∷ [])

abbrev folder : List FilePath
folder = (97 ∷ 98 ∷ []) ∷ (99 ∷ []) ∷ []

rules_question : Has (opt_dirs ∷ any_one ∷ [], false) rules
unfolding build compile_all is_blank translate ends_sep has_sep split_anchor drop_last with_anchor
    pieces next_piece star_piece
rules_question = inr (inr (inl refl))

question_sentinel : matches same_case settings (any_one ∷ []) (0 ∷ []) ≡ true
unfolding matches one_then not_slash
question_sentinel = refl

-- The folder "ab" does not match "?", and neither does a file "ab/photo" below it.
ab_unmatched : matches same_case settings (opt_dirs ∷ any_one ∷ []) (97 ∷ 98 ∷ []) ≡ false
unfolding matches one_then run_then not_slash not_newline is_slash
ab_unmatched = refl

ab_photo_kept :
    is_file_ignored same_case settings rules ((97 ∷ 98 ∷ []) ∷ (112 ∷ 104 ∷ []) ∷ []) ≡ false
unfolding is_file_ignored is_one_of same_path matches_file name_of joined matches one_then run_then
    not_slash not_newline is_slash build compile_all is_blank translate ends_sep has_sep
    split_anchor drop_last with_anchor pieces next_piece star_piece
ab_photo_kept = refl

folder_one_line : All (λ c. not_newline c ≡ true) (map same_case (joined same_case settings folder))
unfolding joined not_newline
folder_one_line = (refl, (refl, (refl, (refl, tt))))

is_dir_pruned_sentinel_example : is_dir_pruned same_case settings rules folder ≡ true
is_dir_pruned_sentinel_example =
    is_dir_pruned_sentinel same_case settings (any_one ∷ []) rules folder rules_question
      question_sentinel folder_one_line

lnk_kept : KeepsLnk same_case settings
unfolding KeepsLnk
lnk_kept = (refl, refl, refl)

a_plain : All (λ c. not_slash c ≡ true) (map same_case (97 ∷ []))
unfolding not_slash
a_plain = (refl, tt)

is_file_ignored_shortcut_example :
    is_file_ignored same_case settings rules (folder ++ ((97 ∷ []) ++ lnk) ∷ []) ≡ true
is_file_ignored_shortcut_example =
    is_file_ignored_shortcut same_case settings ((63 ∷ []) ∷ []) folder (97 ∷ []) lnk_kept a_plain
      folder_one_line
