-- ===== src/Roots/Samples.antt =====
-- Two roots, and one that is refused.
use packrat.Prelude.{ℕ, ◌≡◌, refl, inl, inr, true, List, [], ◌∷◌, Has}
use packrat.Paths.{
  FilePath, is_within, is_below, rstrip, normcase, same_path, starts_with, paths_equal,
}
use packrat.Roots.{
  Root, Request, library, is_nil, max_root, overlap, find_name, handle_of, insert_root, register,
  roots_after, register_all, resolve_dest, library_only,
}
use packrat.Roots.Disjoint.{resolve_dest_unique}

abbrev same_case : ℕ → ℕ
same_case c = c

abbrev whole : FilePath → FilePath
whole p = p

abbrev request : FilePath → Request
request p = record {
  canon = p;
  exists = true;
  is_dir = true;
  is_readable = true;
  name = [];
  kind = library;
}

-- "a", "b", and "a/c".
abbrev requests : List Request
requests = request (97 ∷ []) ∷ request (98 ∷ []) ∷ request (97 ∷ 47 ∷ 99 ∷ []) ∷ []

abbrev b_root : Root
b_root = record { id = 2; path = 98 ∷ []; name = 98 ∷ []; kind = library }

b_root_registered : Has b_root (register_all same_case same_case whole requests [])
unfolding register_all roots_after register insert_root overlap find_name handle_of is_nil max_root
    is_within is_below rstrip normcase same_path starts_with paths_equal
b_root_registered = inr (inl refl)

below_b : is_within same_case (98 ∷ 47 ∷ 100 ∷ []) b_root.path ≡ true
unfolding is_within is_below rstrip normcase same_path starts_with
below_b = refl

resolve_dest_unique_example :
    resolve_dest same_case same_case whole
      (98 ∷ 47 ∷ 100 ∷ [])
      []
      (register_all same_case same_case whole requests [])
    ≡ library_only same_case same_case whole library b_root (98 ∷ 47 ∷ 100 ∷ [])
resolve_dest_unique_example =
    resolve_dest_unique same_case same_case whole requests (98 ∷ 47 ∷ 100 ∷ []) [] b_root
      b_root_registered below_b
