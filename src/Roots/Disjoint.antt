-- ===== src/Roots/Disjoint.antt =====
-- No path lies within two registered roots.
use packrat.Prelude.{
  ℕ, ◌≡◌, refl, sym, ap, ◌∙◌, ◌⊎◌, inl, inr, Bool, true, false, not, ◌||◌, Option, none, some, List,
  [], ◌∷◌, ◌++◌, arith, All, All-imp, All-snoc, All-at, Has, if◌then◌else◌, Bool-cases,
}
use mathlib.Core.Path.{subst}
use packrat.Paths.{
  FilePath, sep, normcase, is_below, is_within, paths_equal, rstrip, same_path, same_path-≡,
  starts_with,
}
use packrat.Roots.{
  Root, Request, RootError, does_not_exist, not_a_directory, not_readable, no_name,
  already_registered, overlaps, Registered, refused, overlap, find_name, handle_of, is_nil,
  insert_root, register, roots_after, register_all, containing, resolve_dest, dest_in, library_only,
}

or_cases : (a b : Bool) → (a || b) ≡ true → (a ≡ true) ⊎ (b ≡ true)
or_cases true b h = inl refl
or_cases false b h = inr h

-- Of two folders above one path, one is below the other.
folders_comparable :
    (a b p : FilePath)
    → starts_with (a ++ sep ∷ []) p ≡ true
    → starts_with (b ++ sep ∷ []) p ≡ true
    → (is_below a b ≡ true) ⊎ (is_below b a ≡ true)
unfolding starts_with is_below same_path
folders_comparable [] [] p ha hb = inl refl
folders_comparable [] (d ∷ b) [] ha hb = cc
folders_comparable [] (d ∷ b) (e ∷ p) ha hb = inr (ground arith)
folders_comparable (c ∷ a) [] [] ha hb = cc
folders_comparable (c ∷ a) [] (e ∷ p) ha hb = inl (ground arith)
folders_comparable (c ∷ a) (d ∷ b) [] ha hb = cc
folders_comparable (c ∷ a) (d ∷ b) (e ∷ p) ha hb =
    elim (folders_comparable a b p (ground arith) (ground arith)) [
      | inl below ↦ inl (ground arith)
      | inr above ↦ inr (ground arith)
    ]

below_both :
    (a b p : FilePath)
    → is_below p a ≡ true
    → is_below p b ≡ true
    → (is_below a b ≡ true) ⊎ (is_below b a ≡ true)
unfolding is_below
below_both a b p ha hb = elim (or_cases (same_path p a) _ ha) [
  | inl at_a ↦ inl (subst (λ x. is_below x b ≡ true) (same_path-≡ p a at_a) hb)
  | inr in_a ↦ elim (or_cases (same_path p b) _ hb) [
    | inl at_b ↦ inr (subst (λ x. is_below x a ≡ true) (same_path-≡ p b at_b) ha)
    | inr in_b ↦ folders_comparable a b p in_a in_b
  ]
]

module _ (lower fold : ℕ → ℕ) (leaf_name : FilePath → FilePath) where
  abbrev Apart : Root → Root → Type 0
  Apart r s = (is_within lower s.path r.path ≡ false) × (is_within lower r.path s.path ≡ false)

  -- No root is within another.
  abbrev Disjoint : List Root → Type 0
  Disjoint [] = Unit
  Disjoint (r ∷ rest) = All (Apart r) rest × Disjoint rest

  overlap_hit :
      (canon : FilePath) (r : Root) (roots : List Root)
      → (is_within lower canon r.path || is_within lower r.path canon) ≡ true
      → (error : RootError) × (overlap lower fold leaf_name canon (r ∷ roots) ≡ some error)
  unfolding overlap
  overlap_hit canon r roots over =
      (if paths_equal lower canon r.path then already_registered else overlaps, rw over refl)

  overlap_miss :
      (canon : FilePath) (r : Root) (roots : List Root)
      → (is_within lower canon r.path || is_within lower r.path canon) ≡ false
      → overlap lower fold leaf_name canon (r ∷ roots) ≡ overlap lower fold leaf_name canon roots
  unfolding overlap
  overlap_miss canon r roots free = rw free refl

  overlap-none :
      (canon : FilePath) (roots : List Root)
      → overlap lower fold leaf_name canon roots ≡ none
      → All
          (λ r. (is_within lower canon r.path ≡ false) × (is_within lower r.path canon ≡ false))
          roots
  unfolding overlap
  overlap-none canon [] e = tt
  overlap-none canon (r ∷ roots) e =
      elim (Bool-cases (is_within lower canon r.path || is_within lower r.path canon)) [
        | inl over ↦
            (let (error, hit) = overlap_hit canon r roots over in let both = sym hit ∙ e in cc)
        | inr free ↦ (
          (ground arith, ground arith),
          overlap-none canon roots (sym (overlap_miss canon r roots free) ∙ e),
        )
      ]

  Disjoint-snoc :
      (roots : List Root) (s : Root)
      → Disjoint roots
      → All (λ r. Apart r s) roots
      → Disjoint (roots ++ s ∷ [])
  Disjoint-snoc [] s disjoint apart = (tt, tt)
  Disjoint-snoc (r ∷ roots) s disjoint apart =
      (All-snoc (Apart r) roots s disjoint.0 apart.0, Disjoint-snoc roots s disjoint.1 apart.1)

  -- What an insert leaves.
  abbrev Grown : Request → List Root → Registered → Type 0
  Grown req roots o =
      (roots_after lower fold leaf_name o roots ≡ roots)
      ⊎ ((overlap lower fold leaf_name req.canon roots ≡ none)
          × ((s : Root) × (s.path ≡ req.canon)
              × (roots_after lower fold leaf_name o roots ≡ roots ++ s ∷ [])))

  insert_root-Grown :
      (req : Request) (roots : List Root) (o : Option RootError) (clash : Option Root)
      → overlap lower fold leaf_name req.canon roots ≡ o
      → Grown req roots (insert_root lower fold leaf_name req o clash roots)
  unfolding insert_root roots_after
  insert_root-Grown req roots (some error) clash e = inl refl
  insert_root-Grown req roots none (some r) e = inl refl
  insert_root-Grown req roots none none e = inr (e, (_, refl, refl))

  refuse-Grown :
      (b : Bool) (error : RootError) (req : Request) (roots : List Root) (o : Registered)
      → Grown req roots o
      → Grown req roots (if b then refused error else o)
  unfolding roots_after
  refuse-Grown true error req roots o grown = inl refl
  refuse-Grown false error req roots o grown = grown

  register-Grown :
      (req : Request) (roots : List Root)
      → Grown req roots (register lower fold leaf_name req roots)
  unfolding register
  register-Grown req roots =
      let h = handle_of lower fold leaf_name req in
      refuse-Grown (not req.exists) does_not_exist req roots _ (
        refuse-Grown (not req.is_dir) not_a_directory req roots _ (
          refuse-Grown (not req.is_readable) not_readable req roots _ (
            refuse-Grown (is_nil h) no_name req roots _ (
              insert_root-Grown req roots (overlap lower fold leaf_name req.canon roots)
                (find_name lower fold leaf_name h roots) refl))))

  register-Disjoint :
      (req : Request) (roots : List Root)
      → Disjoint roots
      → Disjoint (roots_after lower fold leaf_name (register lower fold leaf_name req roots) roots)
  register-Disjoint req roots disjoint = elim (register-Grown req roots) [
    | inl same ↦ subst Disjoint (sym same) disjoint
    | inr (free, (s, path, grown)) ↦ subst Disjoint (sym grown) (
        Disjoint-snoc roots s disjoint (
          All-imp roots
            (λ r away. (
              subst (λ p. is_within lower p r.path ≡ false) (sym path) away.0,
              subst (λ p. is_within lower r.path p ≡ false) (sym path) away.1,
            ))
            (overlap-none req.canon roots free)))
  ]

  register_all-Disjoint :
      (requests : List Request) (roots : List Root)
      → Disjoint roots
      → Disjoint (register_all lower fold leaf_name requests roots)
  unfolding register_all
  register_all-Disjoint [] roots disjoint = disjoint
  register_all-Disjoint (req ∷ requests) roots disjoint =
      register_all-Disjoint requests _ (register-Disjoint req roots disjoint)

  within_both :
      (p : FilePath) (r s : Root)
      → is_within lower p r.path ≡ true
      → is_within lower p s.path ≡ true
      → (is_within lower r.path s.path ≡ true) ⊎ (is_within lower s.path r.path ≡ true)
  unfolding is_within
  within_both p r s hr hs =
      below_both (normcase lower (rstrip r.path)) (normcase lower (rstrip s.path))
        (normcase lower (rstrip p)) hr hs

  not-Apart :
      (p : FilePath) (r s : Root)
      → is_within lower p r.path ≡ true
      → is_within lower p s.path ≡ true
      → ¬ (Apart r s)
  not-Apart p r s hr hs apart = elim (within_both p r s hr hs) [
    | inl below ↦ let both = sym apart.1 ∙ below in cc
    | inr above ↦ let both = sym apart.0 ∙ above in cc
  ]

  containing_here :
      (p : FilePath) (r : Root) (roots : List Root)
      → is_within lower p r.path ≡ true
      → containing lower fold leaf_name p (r ∷ roots) ≡ some r
  unfolding containing
  containing_here p r roots e = rw e refl

  containing_later :
      (p : FilePath) (r : Root) (roots : List Root)
      → is_within lower p r.path ≡ false
      → containing lower fold leaf_name p (r ∷ roots) ≡ containing lower fold leaf_name p roots
  unfolding containing
  containing_later p r roots e = rw e refl

  containing-one :
      (p : FilePath) (r : Root) (roots : List Root)
      → Disjoint roots
      → Has r roots
      → is_within lower p r.path ≡ true
      → containing lower fold leaf_name p roots ≡ some r
  containing-one p r [] disjoint m within = absurd m
  containing-one p r (s ∷ roots) disjoint (inl same) within =
      containing_here p s roots (subst (λ (x : Root). is_within lower p x.path ≡ true) same within)
      ∙ ap some (sym same)
  containing-one p r (s ∷ roots) disjoint (inr m) within =
      elim (Bool-cases (is_within lower p s.path)) [
        | inl also ↦ absurd (not-Apart p s r also within (All-at (Apart s) roots disjoint.0 m))
        | inr away ↦ containing_later p s roots away ∙ containing-one p r roots disjoint.1 m within
      ]

  -- Whatever is registered, in any order and with refusals in between, a path that lies within a
  -- root lies within no other: as the destination of a merge it resolves to that root, wherever the
  -- row stands in the table, and is refused exactly when that root is no library.
  pub resolve_dest_unique :
      (requests : List Request) (canon arg : FilePath) (r : Root)
      → Has r (register_all lower fold leaf_name requests [])
      → is_within lower canon r.path ≡ true
      → resolve_dest lower fold leaf_name canon arg (register_all lower fold leaf_name requests [])
        ≡ library_only lower fold leaf_name r.kind r canon
  unfolding resolve_dest dest_in
  resolve_dest_unique requests canon arg r m within =
      rw
        (containing-one canon r (register_all lower fold leaf_name requests [])
          (register_all-Disjoint requests [] tt) m within)
        refl
