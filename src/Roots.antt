-- ===== src/Roots.antt =====
-- The registered roots: register, resolve_root and resolve_dest of src/packrat/roots.py. What the
-- operating system says of a path is given with it: its canonical form, and whether it exists, is a
-- folder and can be listed. `lower` is the change of case of normcase, `fold` that of NOCASE.
pub mod Disjoint
mod Samples
use packrat.Prelude.{
  ℕ, zero, suc, ◌+◌, ◌-◌, ◌*◌, ◌/◌, ◌%◌, ◌≤◌, ◌<◌, min, max, ◌≡◌, refl, sym, ap, ◌∙◌, ◌≢◌, ◌⊎◌, inl,
  inr, Bool, true, false, not, ◌&&◌, ◌||◌, Option, none, some, List, [], ◌∷◌, ◌++◌, map, arith,
  length, All, All-imp, All-snoc, All-append, All-at, Has, ltb, leb, ◌==◌, if◌then◌else◌,
  Bool-cases, Option-cases, ==_iff, ==_false, leb→le,
}
use packrat.Paths.{FilePath, same_path, is_within, paths_equal}

pub data Kind : Type 0 where
  library trash : Kind

pub record Root : Type 0 where
  pub id : ℕ
  pub path : FilePath
  pub name : FilePath
  pub kind : Kind

-- A call of register, whose kind is a valid one.
pub record Request : Type 0 where
  pub canon : FilePath
  pub exists : Bool
  pub is_dir : Bool
  pub is_readable : Bool
  pub name : FilePath
  pub kind : Kind

pub data RootError : Type 0 where
  does_not_exist not_a_directory not_readable no_name already_registered overlaps name_in_use
        not_found not_library under_no_root :
      RootError

pub data Registered : Type 0 where
  refused : RootError → Registered
  inserted : List Root → Registered

pub data Resolved : Type 0 where
  unresolved : RootError → Resolved
  resolved : Root → FilePath → Resolved

unfoldable pub is_nil : FilePath → Bool
is_nil [] = true
is_nil (c ∷ cs) = false

unfoldable pub max_root : List Root → ℕ
max_root [] = 0
max_root (r ∷ rest) = max r.id (max_root rest)

module _ (lower fold : ℕ → ℕ) (leaf_name : FilePath → FilePath) where
  -- The first root that the path overlaps, and whether it is the same path.
  unfoldable pub overlap : FilePath → List Root → Option RootError
  overlap canon [] = none
  overlap canon (r ∷ rest) =
      let later = overlap canon rest in
      if is_within lower canon r.path || is_within lower r.path canon
      then some (if paths_equal lower canon r.path then already_registered else overlaps)
      else later

  unfoldable pub find_name : FilePath → List Root → Option Root
  find_name name [] = none
  find_name name (r ∷ rest) =
      let later = find_name name rest in
      if same_path (map fold r.name) (map fold name) then some r else later

  -- The name that is given, when there is one, or the last part of the path.
  unfoldable pub handle_of : Request → FilePath
  handle_of req = if is_nil req.name then leaf_name req.canon else req.name

  unfoldable pub insert_root : Request → Option RootError → Option Root → List Root → Registered
  insert_root req (some e) clash roots = refused e
  insert_root req none (some r) roots = refused name_in_use
  insert_root req none none roots = inserted (
      roots
      ++ record { id = max_root roots + 1; path = req.canon; name = handle_of req; kind = req.kind }
        ∷ [])

  unfoldable pub register : Request → List Root → Registered
  register req roots =
      if not req.exists
      then refused does_not_exist
      else if not req.is_dir
      then refused not_a_directory
      else if not req.is_readable
      then refused not_readable
      else if is_nil (handle_of req)
      then refused no_name
      else insert_root req (overlap req.canon roots) (find_name (handle_of req) roots) roots

  unfoldable pub roots_after : Registered → List Root → List Root
  roots_after (refused e) roots = roots
  roots_after (inserted rows) roots = rows

  unfoldable pub register_all : List Request → List Root → List Root
  register_all [] roots = roots
  register_all (req ∷ requests) roots =
      register_all requests (roots_after (register req roots) roots)

  unfoldable pub find_path : FilePath → List Root → Option Root
  find_path canon [] = none
  find_path canon (r ∷ rest) =
      let later = find_path canon rest in if paths_equal lower canon r.path then some r else later

  unfoldable pub named_or_missing : Option Root → Resolved
  named_or_missing none = unresolved not_found
  named_or_missing (some r) = resolved r r.path

  unfoldable pub at_or_named : Option Root → FilePath → List Root → Resolved
  at_or_named (some r) arg roots = resolved r r.path
  at_or_named none arg roots = named_or_missing (find_name arg roots)

  -- The argument as it was given, and its canonical form.
  unfoldable pub resolve_root : FilePath → FilePath → List Root → Resolved
  resolve_root canon arg roots = at_or_named (find_path canon roots) arg roots

  unfoldable pub containing : FilePath → List Root → Option Root
  containing canon [] = none
  containing canon (r ∷ rest) =
      let later = containing canon rest in if is_within lower canon r.path then some r else later

  unfoldable pub library_only : Kind → Root → FilePath → Resolved
  library_only library r dest = resolved r dest
  library_only trash r dest = unresolved not_library

  unfoldable pub dest_named : Option Root → Resolved
  dest_named none = unresolved under_no_root
  dest_named (some r) = library_only r.kind r r.path

  unfoldable pub dest_in : Option Root → FilePath → FilePath → List Root → Resolved
  dest_in (some r) canon arg roots = library_only r.kind r canon
  dest_in none canon arg roots = dest_named (find_name arg roots)

  unfoldable pub resolve_dest : FilePath → FilePath → List Root → Resolved
  resolve_dest canon arg roots = dest_in (containing canon roots) canon arg roots
