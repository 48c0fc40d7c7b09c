-- ===== src/Ignore/Sentinel.antt =====
-- The sentinel child of is_dir_pruned.
use packrat.Prelude.{
  ℕ, ◌≡◌, ap, inl, inr, Bool, true, false, List, [], ◌∷◌, ◌++◌, map, arith, All, Has,
}
use mathlib.Core.Path.{subst}
use packrat.Paths.{FilePath, sep}
use packrat.Ignore.{
  Piece, opt_dirs, Rule, run_then, one_then, not_newline, is_slash, Settings, matches, joined,
  matches_dir, is_dir_pruned,
}

pub run_then_append :
    (allowed : ℕ → Bool) (follows : FilePath → Bool) (xs ys : FilePath)
    → All (λ c. allowed c ≡ true) xs
    → follows ys ≡ true
    → run_then allowed follows (xs ++ ys) ≡ true
unfolding run_then
run_then_append allowed follows [] [] free end = end
run_then_append allowed follows [] (y ∷ ys) free end = ground arith
run_then_append allowed follows (x ∷ xs) ys free end =
    let e : run_then allowed follows (xs ++ ys) ≡ true =
      run_then_append allowed follows xs ys free.1 end in
    let a : allowed x ≡ true = free.0 in ground arith

module _ (lower : ℕ → ℕ) (set : Settings) where
  sentinel-matches :
      (ps : List Piece) (rel : FilePath)
      → All (λ c. not_newline c ≡ true) rel
      → matches lower set ps (0 ∷ []) ≡ true
      → matches lower set (opt_dirs ∷ ps) (rel ++ sep ∷ 0 ∷ []) ≡ true
  unfolding matches one_then is_slash
  sentinel-matches ps rel free hit =
      let e : run_then not_newline (one_then is_slash (matches lower set ps)) (rel ++ sep ∷ 0 ∷ [])
          ≡ true =
        run_then_append not_newline (one_then is_slash (matches lower set ps)) rel (sep ∷ 0 ∷ [])
          free hit in
      ground arith

  rule-prunes :
      (ps : List Piece) (rules : List Rule) (rel : FilePath)
      → Has (ps, false) rules
      → matches lower set ps (rel ++ sep ∷ 0 ∷ []) ≡ true
      → matches_dir lower set rules rel ≡ true
  unfolding matches_dir
  rule-prunes ps [] rel has hit = elim has [ ]
  rule-prunes ps ((qs, dir_only) ∷ rules) rel (inl here) hit =
      let first : ps ≡ qs = ap (λ r. r.0) here in
      let second : false ≡ dir_only = ap (λ r. r.1) here in
      let e : matches lower set qs (rel ++ sep ∷ 0 ∷ []) ≡ true =
        subst (λ l. matches lower set l (rel ++ sep ∷ 0 ∷ []) ≡ true) first hit in
      ground arith
  rule-prunes ps ((qs, dir_only) ∷ rules) rel (inr there) hit =
      let e : matches_dir lower set rules rel ≡ true = rule-prunes ps rules rel there hit in
      ground arith

  -- Where a rule that is not anchored and not for folders only matches a name of one character, the
  -- code 0 that stands for a child, every folder is pruned whose path has no newline, whatever
  -- its name is.
  pub is_dir_pruned_sentinel :
      (ps : List Piece) (rules : List Rule) (rel : List FilePath)
      → Has (opt_dirs ∷ ps, false) rules
      → matches lower set ps (0 ∷ []) ≡ true
      → All (λ c. not_newline c ≡ true) (map lower (joined lower set rel))
      → is_dir_pruned lower set rules rel ≡ true
  unfolding is_dir_pruned
  is_dir_pruned_sentinel ps rules rel has hit free =
      let e : matches_dir lower set rules (map lower (joined lower set rel)) ≡ true =
        rule-prunes (opt_dirs ∷ ps) rules _ has (sentinel-matches ps _ free hit) in
      ground arith
