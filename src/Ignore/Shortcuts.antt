-- ===== src/Ignore/Shortcuts.antt =====
-- The shortcuts that packrat writes itself are no files of a root: the built-in globs.
use packrat.Prelude.{ℕ, ◌≡◌, refl, sym, ap, ◌∙◌, true, false, List, [], ◌∷◌, ◌++◌, map, arith, All}
use mathlib.Core.List.{append_assoc}
use mathlib.Core.Path.{subst}
use packrat.Paths.{FilePath, sep, ends_sep, has_sep}
use packrat.Ignore.{
  Piece, lit, any_run, opt_dirs, Rule, star, split_anchor, with_anchor, pieces, next_piece,
  star_piece, translate, run_then, one_then, not_slash, not_newline, is_slash, Settings, matches,
  joined, matches_file, is_file_ignored, review_dir, is_blank, compile_all, build,
}
use packrat.Ignore.Sentinel.{run_then_append}

-- ".lnk", and what its glob is translated to.
abbrev pub lnk : FilePath
lnk = 46 ∷ 108 ∷ 110 ∷ 107 ∷ []

abbrev lnk_pieces : List Piece
lnk_pieces = any_run ∷ lit 46 ∷ lit 108 ∷ lit 110 ∷ lit 107 ∷ []

abbrev tail_of : FilePath → FilePath
tail_of [] = []
tail_of (c ∷ cs) = cs

module _ (lower : ℕ → ℕ) (set : Settings) where
  lower-append : (p q : FilePath) → map lower (p ++ q) ≡ map lower p ++ map lower q
  lower-append [] q = refl
  lower-append (c ∷ p) q = ap (λ t. lower c ∷ t) (lower-append p q)

  lnk-matches :
      (base : FilePath)
      → All (λ c. not_slash c ≡ true) base
      → matches lower set lnk_pieces (base ++ lnk) ≡ true
  unfolding matches one_then
  lnk-matches base plain =
      run_then_append not_slash (matches lower set (lit 46 ∷ lit 108 ∷ lit 110 ∷ lit 107 ∷ [])) base
        lnk plain refl

  any_depth :
      (ps : List Piece) (above name : FilePath)
      → All (λ c. not_newline c ≡ true) above
      → matches lower set ps name ≡ true
      → matches lower set (opt_dirs ∷ ps) (above ++ sep ∷ name) ≡ true
  unfolding matches one_then is_slash
  any_depth ps above name free hit =
      let e : run_then not_newline (one_then is_slash (matches lower set ps)) (above ++ sep ∷ name)
          ≡ true =
        run_then_append not_newline (one_then is_slash (matches lower set ps)) above (sep ∷ name)
          free hit in
      ground arith

  top_level :
      (ps : List Piece) (name : FilePath)
      → matches lower set ps name ≡ true
      → matches lower set (opt_dirs ∷ ps) name ≡ true
  unfolding matches
  top_level ps name hit = ground arith

  joined-snoc :
      (d : FilePath) (dirs : List FilePath) (name : FilePath)
      → joined lower set ((d ∷ dirs) ++ name ∷ []) ≡ joined lower set (d ∷ dirs) ++ sep ∷ name
  unfolding joined
  joined-snoc d [] name = refl
  joined-snoc d (e ∷ dirs) name =
      ap (λ t. d ++ sep ∷ t) (joined-snoc e dirs name)
      ∙ sym (append_assoc d (sep ∷ joined lower set (e ∷ dirs)) (sep ∷ name))

  -- The characters of the built-in glob "*.lnk" stay what they are.
  unfoldable pub KeepsLnk : Type 0
  KeepsLnk = (map lower (star ∷ lnk) ≡ star ∷ lnk) × (lower sep ≡ sep) × (set.is_space star ≡ false)

  glob-compiled :
      (g : FilePath) (globs : List FilePath)
      → is_blank lower set g ≡ false
      → compile_all lower set (g ∷ globs) ≡ translate lower g ∷ compile_all lower set globs
  unfolding compile_all
  glob-compiled g globs text = ground arith

  lnk-translate : KeepsLnk → translate lower (star ∷ lnk) ≡ (opt_dirs ∷ lnk_pieces, false)
  unfolding translate ends_sep has_sep split_anchor with_anchor KeepsLnk pieces next_piece
      star_piece
  lnk-translate keeps = ap (λ s. (opt_dirs ∷ pieces 5 s, false)) keeps.0

  lnk_text : KeepsLnk → is_blank lower set (star ∷ lnk) ≡ false
  unfolding is_blank KeepsLnk
  lnk_text keeps = let e : set.is_space star ≡ false = keeps.2 in ground arith

  lnk_rule :
      (extra : List FilePath)
      → KeepsLnk
      → (rules : List Rule) × (build lower set extra ≡ (opt_dirs ∷ lnk_pieces, false) ∷ rules)
  unfolding build
  lnk_rule extra keeps = (
    _,
    glob-compiled (star ∷ lnk) _ (lnk_text keeps)
        ∙ ap (λ r. r ∷ compile_all lower set ((review_dir ++ sep ∷ []) ∷ extra))
            (lnk-translate keeps),
  )

  lower-lnk : KeepsLnk → (base : FilePath) → map lower (base ++ lnk) ≡ map lower base ++ lnk
  unfolding KeepsLnk
  lower-lnk keeps base = lower-append base lnk ∙ ap (λ t. map lower base ++ t) (ap tail_of keeps.0)

  lnk_path :
      (dirs : List FilePath) (base : FilePath)
      → KeepsLnk
      → All (λ c. not_slash c ≡ true) (map lower base)
      → All (λ c. not_newline c ≡ true) (map lower (joined lower set dirs))
      → matches lower set
          (opt_dirs ∷ lnk_pieces)
          (map lower (joined lower set (dirs ++ (base ++ lnk) ∷ [])))
        ≡ true
  unfolding joined KeepsLnk
  lnk_path [] base keeps plain free =
      subst (λ t. matches lower set (opt_dirs ∷ lnk_pieces) t ≡ true) (sym (lower-lnk keeps base))
        (top_level lnk_pieces _ (lnk-matches (map lower base) plain))
  lnk_path (d ∷ dirs) base keeps plain free =
      let e : map lower (joined lower set ((d ∷ dirs) ++ (base ++ lnk) ∷ []))
          ≡ map lower (joined lower set (d ∷ dirs)) ++ (sep ∷ (map lower base ++ lnk)) =
        ap (map lower) (joined-snoc d dirs (base ++ lnk))
        ∙ lower-append (joined lower set (d ∷ dirs)) (sep ∷ (base ++ lnk))
        ∙ ap (λ t. map lower (joined lower set (d ∷ dirs)) ++ t)
            (ap (λ c. c ∷ map lower (base ++ lnk)) keeps.1
              ∙ ap (λ t. sep ∷ t) (lower-lnk keeps base)) in
      subst (λ t. matches lower set (opt_dirs ∷ lnk_pieces) t ≡ true) (sym e)
        (any_depth lnk_pieces _ _ free (lnk-matches (map lower base) plain))

  -- Whatever globs a root has, a file whose name ends with ".lnk" is ignored at any depth, as the
  -- shortcuts are that packrat writes itself. The name, in lower case, has no slash, the folders above
  -- have no newline, a star is no whitespace, and the change of case keeps the glob's characters and
  -- the slash.
  pub is_file_ignored_shortcut :
      (extra dirs : List FilePath) (base : FilePath)
      → KeepsLnk
      → All (λ c. not_slash c ≡ true) (map lower base)
      → All (λ c. not_newline c ≡ true) (map lower (joined lower set dirs))
      → is_file_ignored lower set (build lower set extra) (dirs ++ (base ++ lnk) ∷ []) ≡ true
  unfolding is_file_ignored matches_file
  is_file_ignored_shortcut extra dirs base keeps plain free =
      let rule = lnk_rule extra keeps in
      let hit : matches lower set (opt_dirs ∷ lnk_pieces)
            (map lower (joined lower set (dirs ++ (base ++ lnk) ∷ [])))
          ≡ true =
        lnk_path dirs base keeps plain free in
      subst (λ l. is_file_ignored lower set l (dirs ++ (base ++ lnk) ∷ []) ≡ true) (sym rule.1)
        (ground arith)
