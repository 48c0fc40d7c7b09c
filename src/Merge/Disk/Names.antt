-- ===== src/Merge/Disk/Names.antt =====
-- The loop that looks for a free name ends.
use packrat.Prelude.{
  ◌++◌, ℕ, zero, suc, ◌+◌, ◌≤◌, ◌<◌, ◌≡◌, refl, sym, ◌∙◌, ◌≢◌, inl, inr, true, false, some, List,
  [], ◌∷◌, arith, length, Bool-cases,
}
use mathlib.Core.List.{append_cancel_left, append_cancel_right}
use packrat.Merge.Disk.{
  FilePath, same_path, File, read, exists, remove, System, numbered, free_name,
}
use packrat.Merge.Disk.Keeps.{read-remove, free_name-free}

-- Where something stands at a path, taking it away makes the list shorter.
length-remove : (p : FilePath) (fs : List File) → length (remove p fs) ≤ length fs
unfolding remove
length-remove p [] = omega arith
length-remove p (f ∷ fs) = elim (Bool-cases (same_path f.path p)) [
  | inl gone ↦ rw gone (omega (arith, length-remove p fs))
  | inr stays ↦ rw stays (omega (arith, length-remove p fs))
]

exists_skip :
    (p : FilePath) (f : File) (fs : List File)
    → same_path f.path p ≡ false
    → exists p (f ∷ fs) ≡ exists p fs
unfolding exists read
exists_skip p f fs apart = rw (apart, exists) refl

length-remove_exists :
    (p : FilePath) (fs : List File) → exists p fs ≡ true → suc (length (remove p fs)) ≤ length fs
unfolding remove exists read
length-remove_exists p [] = λ e. cc
length-remove_exists p (f ∷ fs) = elim (Bool-cases (same_path f.path p)) [
  | inl gone ↦ rw gone (λ e. omega (arith, length-remove p fs))
  | inr stays ↦
      rw stays (λ e. omega (arith, length-remove_exists p fs (sym (exists_skip p f fs stays) ∙ e)))
]

exists-remove : (q p : FilePath) (fs : List File) → q ≢ p → exists q (remove p fs) ≡ exists q fs
unfolding exists
exists-remove q p fs other = rw (read-remove q p fs other, exists) refl

module _ (sys : System) (target : FilePath) where
  -- The same answers for all later numbers give the same name.
  free_name-cong :
      (fuel n : ℕ) (fs gs : List File)
      → ((m : ℕ) → n ≤ m → exists (numbered sys target m) fs ≡ exists (numbered sys target m) gs)
      → free_name sys fuel n target fs ≡ free_name sys fuel n target gs
  unfolding free_name
  free_name-cong zero n fs gs same = refl
  free_name-cong (suc fuel) n fs gs same =
      rw
        (
          same n (omega arith),
          free_name-cong fuel (n + 1) fs gs (λ m le. same m (omega (arith, le))),
        )
        refl

  -- When different numbers give different names, a name is found within one try more than there
  -- are files, whatever number the loop starts from.
  pub free_name_found :
      (fuel n : ℕ) (fs : List File)
      → ((i j : ℕ) → i ≢ j → numbered sys target i ≢ numbered sys target j)
      → length fs < fuel
      → (t : FilePath) × (free_name sys fuel n target fs ≡ some t)
  unfolding free_name
  free_name_found zero n fs distinct enough = absurd (omega (arith, enough))
  free_name_found (suc fuel) n fs distinct enough =
      elim (Bool-cases (exists (numbered sys target n) fs)) [
        | inl taken ↦
            let left = remove (numbered sys target n) fs in
            let same = free_name-cong fuel (n + 1) left fs (λ m le.
              exists-remove (numbered sys target m) (numbered sys target n) fs
                (distinct m n (λ e. omega (arith, e, le)))) in
            let (t, found) =
              free_name_found fuel (n + 1) left distinct
                (omega (arith, enough, length-remove_exists (numbered sys target n) fs taken)) in
            rw taken (t, sym same ∙ found)
        | inr is_free ↦ rw is_free (numbered sys target n, refl)
      ]

  numbered_distinct :
      ((i j : ℕ) → sys.shown i ≡ sys.shown j → i ≡ j)
      → (i j : ℕ) → i ≢ j
      → numbered sys target i ≢ numbered sys target j
  unfolding numbered
  numbered_distinct printed i j apart same =
      let close : FilePath = (41 ∷ []) ++ sys.ext_of target in
      let no_base =
        append_cancel_left (sys.base_of target) ((32 ∷ 40 ∷ []) ++ (sys.shown i ++ close))
          ((32 ∷ 40 ∷ []) ++ (sys.shown j ++ close)) same in
      let no_open =
        append_cancel_left (32 ∷ 40 ∷ []) (sys.shown i ++ close) (sys.shown j ++ close) no_base in
      apart (printed i j (append_cancel_right (sys.shown i) (sys.shown j) close no_open))

  -- Where different numbers are printed differently, the loop that renames a colliding file ends
  -- within one try more than there are files, with a name at which nothing stands.
  pub free_name_returns :
      (fs : List File)
      → ((i j : ℕ) → sys.shown i ≡ sys.shown j → i ≡ j)
      → (t : FilePath) × (free_name sys (length fs + 1) 1 target fs ≡ some t)
        × (exists t fs ≡ false)
  free_name_returns fs printed =
      let (t, found) =
        free_name_found (length fs + 1) 1 fs (numbered_distinct printed) (omega arith) in
      (t, found, free_name-free sys (length fs + 1) 1 target t fs found)
