-- ===== src/Scan/Walk/Drive.antt =====
-- The suppression of a folder whose path ends with a separator, as the path of a drive does.
use packrat.Prelude.{ℕ, ◌≡◌, refl, true, false, List, [], ◌∷◌, ◌++◌, map, arith, ◌==◌}
use packrat.Paths.{
  FilePath, sep, join, normcase, is_below, same_path, starts_with, map-append, ends_sep,
}
use packrat.Scan.Walk.{IgnoreSet, Enumeration, under_any, is_suppressed, suppress}

same_path_longer : (p : FilePath) (c : ℕ) (q : FilePath) → same_path (p ++ c ∷ q) p ≡ false
unfolding same_path
same_path_longer [] c q = refl
same_path_longer (d ∷ p) c q = ground (arith, same_path_longer p c q)

starts_with_other :
    (p : FilePath) (c : ℕ) (q : FilePath)
    → (c == sep) ≡ false
    → starts_with (p ++ sep ∷ []) (p ++ c ∷ q) ≡ false
unfolding starts_with
starts_with_other [] c q other = ground arith
starts_with_other (d ∷ p) c q other = ground (arith, starts_with_other p c q other)

under_any_last :
    (p s : FilePath) (xs : List FilePath)
    → is_below p s ≡ false
    → under_any p (xs ++ s ∷ []) ≡ under_any p xs
unfolding under_any
under_any_last p s [] h = ground arith
under_any_last p s (x ∷ xs) h = ground (arith, under_any_last p s xs h)

module _ (lower : ℕ → ℕ) (ig : IgnoreSet) where
  -- When a folder whose path ends with a separator is suppressed, after an error at one of its
  -- entries, that changes nothing for the paths right below it: each is suppressed exactly when it
  -- was before. The name of the entry does not start with a separator.
  pub suppress-no_effect :
      (dir : FilePath) (c : ℕ) (q : FilePath) (en : Enumeration)
      → ends_sep dir ≡ true
      → (lower c == sep) ≡ false
      → is_suppressed lower (suppress lower ig dir en) (join dir (c ∷ q))
        ≡ is_suppressed lower en (join dir (c ∷ q))
  unfolding is_suppressed suppress join is_below normcase
  suppress-no_effect dir c q en drive other = rw drive (
      under_any_last (normcase lower (dir ++ c ∷ q)) (normcase lower dir) en.suppressed
        (is_below_other dir c q other))
    where
      is_below_other :
          (dir : FilePath) (c : ℕ) (q : FilePath)
          → (lower c == sep) ≡ false
          → is_below (normcase lower (dir ++ c ∷ q)) (normcase lower dir) ≡ false
      is_below_other dir c q other =
          rw (map-append lower dir (c ∷ q), is_below, normcase)
            (ground (
              arith,
              same_path_longer (map lower dir) (lower c) (map lower q),
              starts_with_other (map lower dir) (lower c) (map lower q) other,
            ))
