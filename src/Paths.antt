-- ===== src/Paths.antt =====
-- Paths as lists of code points: os.path.join, os.path.normcase, and the tests of
-- src/packrat/fsutil.py. The separator is "/", and normcase changes one character at a time.
use packrat.Prelude.{
  ℕ, ◌≡◌, refl, ap, Bool, true, false, ◌&&◌, ◌||◌, List, [], ◌∷◌, ◌++◌, map, arith, ◌==◌,
  if◌then◌else◌,
}

abbrev pub FilePath : Type 0
FilePath = List ℕ

unfoldable pub same_path : FilePath → FilePath → Bool
same_path [] [] = true
same_path [] (d ∷ ds) = false
same_path (c ∷ cs) [] = false
same_path (c ∷ cs) (d ∷ ds) = (c == d) && same_path cs ds

pub same_path-≡ : (p q : FilePath) → same_path p q ≡ true → p ≡ q
unfolding same_path
same_path-≡ [] [] h = refl
same_path-≡ [] (d ∷ q) h = cc
same_path-≡ (c ∷ p) [] h = cc
same_path-≡ (c ∷ p) (d ∷ q) h =
    let first : c ≡ d = ground arith in let rest : p ≡ q = same_path-≡ p q (ground arith) in cc

pub same_path_refl : (p : FilePath) → same_path p p ≡ true
unfolding same_path
same_path_refl [] = refl
same_path_refl (c ∷ p) = ground (arith, same_path_refl p)

abbrev pub sep : ℕ
sep = 47

-- str.startswith, with the prefix first.
unfoldable pub starts_with : FilePath → FilePath → Bool
starts_with [] p = true
starts_with (c ∷ cs) [] = false
starts_with (c ∷ cs) (d ∷ ds) = (c == d) && starts_with cs ds

unfoldable pub ends_sep : FilePath → Bool
ends_sep [] = false
ends_sep (c ∷ []) = c == sep
ends_sep (c ∷ d ∷ cs) = ends_sep (d ∷ cs)

-- os.path.join of a folder, which is not empty, and a name.
unfoldable pub join : FilePath → FilePath → FilePath
join dir name = if ends_sep dir then dir ++ name else dir ++ sep ∷ name

-- os.path.normcase, for a change of case of single characters.
unfoldable pub normcase : (ℕ → ℕ) → FilePath → FilePath
normcase lower p = map lower p

-- Is a path the folder, or below it?
unfoldable pub is_below : FilePath → FilePath → Bool
is_below p dir = same_path p dir || starts_with (dir ++ sep ∷ []) p

-- str.rstrip of slashes and backslashes.
unfoldable pub rstrip : FilePath → FilePath
rstrip [] = []
rstrip (c ∷ cs) = elim (rstrip cs) [
  | [] ↦ if (c == sep) || (c == 92) then [] else c ∷ []
  | ◌∷◌ d ds ↦ c ∷ d ∷ ds
]

unfoldable pub is_within : (ℕ → ℕ) → FilePath → FilePath → Bool
is_within lower child parent =
    is_below (normcase lower (rstrip child)) (normcase lower (rstrip parent))

unfoldable pub paths_equal : (ℕ → ℕ) → FilePath → FilePath → Bool
paths_equal lower a b = same_path (normcase lower a) (normcase lower b)

pub starts_with-append : (p q : FilePath) → starts_with p (p ++ q) ≡ true
unfolding starts_with
starts_with-append [] q = refl
starts_with-append (c ∷ p) q = ground (arith, starts_with-append p q)

pub starts_with_split : (p q : FilePath) → starts_with p q ≡ true → (r : FilePath) × (q ≡ p ++ r)
unfolding starts_with
starts_with_split [] q h = (q, refl)
starts_with_split (c ∷ p) [] h = cc
starts_with_split (c ∷ p) (d ∷ q) h =
    let same : c ≡ d = ground arith in
    let below = starts_with_split p q (ground arith) in (below.0, cc)

pub map-append :
    (lower : ℕ → ℕ) (p q : FilePath)
    → normcase lower (p ++ q) ≡ normcase lower p ++ normcase lower q
unfolding normcase
map-append lower [] q = refl
map-append lower (c ∷ p) q = ap (λ t. lower c ∷ t) (map-append lower p q)

pub ends_sep-append :
    (p : FilePath) (c : ℕ) (q : FilePath) → ends_sep (p ++ c ∷ q) ≡ ends_sep (c ∷ q)
unfolding ends_sep
ends_sep-append [] c q = refl
ends_sep-append (a ∷ []) c q = refl
ends_sep-append (a ∷ b ∷ p) c q = ends_sep-append (b ∷ p) c q

unfoldable pub has_sep : FilePath → Bool
has_sep [] = false
has_sep (c ∷ cs) = (c == sep) || has_sep cs

-- os.path.basename: what stands behind the last separator.
unfoldable pub basename : FilePath → FilePath
basename [] = []
basename (c ∷ cs) = let rest = basename cs in if has_sep (c ∷ cs) then rest else c ∷ cs
