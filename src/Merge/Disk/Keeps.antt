-- ===== src/Merge/Disk/Keeps.antt =====
-- What placing a copy leaves of the files that are there.
use packrat.Prelude.{
  ℕ, zero, suc, ◌+◌, ◌≡◌, refl, sym, ap, ◌∙◌, ◌≢◌, inl, inr, true, false, Option, none, some, List,
  [], ◌∷◌, length, ◌==◌, Bool-cases, Option-cases,
}
use packrat.Paths.{same_path-≡}
use packrat.Merge.Disk.{
  FilePath, same_path, File, read, exists, write, remove, System, CopyOutcome, CopyKind, fresh,
  renamed, whole, broken, part_of, hash_or_none, numbered, free_name, verify, settle, copy_to,
  holds_hash, place_copy,
}

read-write :
    (q p : FilePath) (c : Option ℕ) (fs : List File) → q ≢ p → read q (write p c fs) ≡ read q fs
unfolding read write
read-write q p c [] other = elim (Bool-cases (same_path p q)) [
  | inl same ↦ absurd (other (sym (same_path-≡ p q same)))
  | inr apart ↦ rw apart refl
]
read-write q p c (f ∷ fs) other = elim (Bool-cases (same_path f.path p)) [
  | inl here ↦ elim (Bool-cases (same_path f.path q)) [
    | inl too ↦ absurd (other (sym (same_path-≡ f.path q too) ∙ same_path-≡ f.path p here))
    | inr apart ↦ rw (here, apart) refl
  ]
  | inr there ↦ elim (Bool-cases (same_path f.path q)) [
    | inl hit ↦ rw (there, hit) refl
    | inr apart ↦ rw (there, apart) (read-write q p c fs other)
  ]
]

pub read-remove : (q p : FilePath) (fs : List File) → q ≢ p → read q (remove p fs) ≡ read q fs
unfolding read remove
read-remove q p [] other = refl
read-remove q p (f ∷ fs) other = elim (Bool-cases (same_path f.path p)) [
  | inl gone ↦ elim (Bool-cases (same_path f.path q)) [
    | inl too ↦ absurd (other (sym (same_path-≡ f.path q too) ∙ same_path-≡ f.path p gone))
    | inr apart ↦ rw (gone, apart) (read-remove q p fs other)
  ]
  | inr stays ↦ elim (Bool-cases (same_path f.path q)) [
    | inl hit ↦ rw (stays, hit) refl
    | inr apart ↦ rw (stays, apart) (read-remove q p fs other)
  ]
]

-- The path has a file before, with this content, and it is no temporary file of a merge.
abbrev pub Stays : FilePath → Option ℕ → List File → Type 0
Stays q c fs = (read q fs ≡ some c) × ((t : FilePath) → q ≢ part_of t)

some_inj : (p q : FilePath) → some p ≡ some q → p ≡ q
some_inj p q e = cc

exists-some :
    (p : FilePath) (c : Option ℕ) (fs : List File) → read p fs ≡ some c → exists p fs ≡ true
unfolding exists
exists-some p c fs e = rw (e, exists) refl

exists_apart :
    (q target : FilePath) (c : Option ℕ) (fs : List File)
    → read q fs ≡ some c
    → exists target fs ≡ false
    → q ≢ target
exists_apart q target c fs there absent e =
    let seen : exists target fs ≡ true =
      exists-some target c fs (ap (λ p. read p fs) (sym e) ∙ there) in
    cc

module _ (sys : System) where
  verify-Stays :
      (h : ℕ) (target : FilePath) (bytes : ℕ) (kind : CopyKind) (fs : List File) (q : FilePath)
      (c : Option ℕ)
      → q ≢ target
      → Stays q c fs
      → read q (verify sys h target bytes kind fs).0 ≡ some c
  unfolding verify
  verify-Stays h target bytes kind fs q c other (there, lasting) =
      let gone : read q (remove (part_of target) fs) ≡ some c =
        read-remove q (part_of target) fs (lasting target) ∙ there in
      elim (Bool-cases (sys.blake3 bytes == h)) [
        | inl right ↦ elim (Bool-cases (sys.replaces (part_of target))) [
          | inl moved ↦
              rw (right, moved)
                (read-write q target (some bytes) (remove (part_of target) fs) other ∙ gone)
          | inr fails ↦ rw (right, fails) there
        ]
        | inr wrong ↦ elim (Bool-cases (sys.removes (part_of target))) [
          | inl cleaned ↦ rw (wrong, cleaned) gone
          | inr fails ↦ rw (wrong, fails) there
        ]
      ]

  settle-Stays :
      (h : ℕ) (target : FilePath) (kind : CopyKind) (outcome : CopyOutcome) (fs : List File)
      (q : FilePath) (c : Option ℕ)
      → q ≢ target
      → Stays q c fs
      → read q (settle sys h target kind outcome fs).0 ≡ some c
  unfolding settle
  settle-Stays h target kind (whole b) fs q c other (there, lasting) =
      verify-Stays h target b kind (write (part_of target) (some b) fs) q c other
        (read-write q (part_of target) (some b) fs (lasting target) ∙ there, lasting)
  settle-Stays h target kind (broken none) fs q c other stays = stays.0
  settle-Stays h target kind (broken (some b)) fs q c other (there, lasting) =
      read-write q (part_of target) (some b) fs (lasting target) ∙ there

  copy_to-Stays :
      (h : ℕ) (rel target : FilePath) (kind : CopyKind) (fs : List File) (q : FilePath)
      (c : Option ℕ)
      → q ≢ target
      → Stays q c fs
      → read q (copy_to sys h rel target kind fs).0 ≡ some c
  unfolding copy_to
  copy_to-Stays h rel target kind fs q c other stays = elim (Bool-cases (sys.makes_dirs target)) [
    | inl made ↦ rw made (settle-Stays h target kind (sys.copy_of rel) fs q c other stays)
    | inr fails ↦ rw fails stays.0
  ]

  pub free_name-free :
      (fuel n : ℕ) (target t : FilePath) (fs : List File)
      → free_name sys fuel n target fs ≡ some t
      → exists t fs ≡ false
  unfolding free_name
  free_name-free zero n target t fs = λ e. cc
  free_name-free (suc fuel) n target t fs = elim (Bool-cases (exists (numbered sys target n) fs)) [
    | inl taken ↦ rw taken (free_name-free fuel (n + 1) target t fs)
    | inr open_name ↦ rw open_name (λ e. ap (λ p. exists p fs) (some_inj _ _ (sym e)) ∙ open_name)
  ]

  -- Placing a copy never overwrites: whatever stood at a path, but for the temporary file of a
  -- merge, is read there afterwards as before, whether the copy succeeds or fails.
  pub place_copy-Stays :
      (h : ℕ) (rel : FilePath) (fs : List File) (q : FilePath) (c : Option ℕ)
      → Stays q c fs
      → read q (place_copy sys h rel fs).0 ≡ some c
  unfolding place_copy
  place_copy-Stays h rel fs q c stays =
      let target = sys.target_of rel in
      elim (Bool-cases (exists target fs)) [
        | inl taken ↦ elim (Bool-cases (holds_hash h (hash_or_none sys target fs))) [
          | inl same ↦ rw (taken, same) stays.0
          | inr different ↦ elim (Option-cases (free_name sys (length fs + 1) 1 target fs)) [
            | inl none_left ↦ rw (taken, different, none_left) stays.0
            | inr (t, found) ↦
                rw (taken, different, found)
                  (copy_to-Stays h rel t renamed fs q c
                    (exists_apart q t c fs stays.0 (free_name-free _ 1 target t fs found)) stays)
          ]
        ]
        | inr absent ↦ rw absent (
            copy_to-Stays h rel target fresh fs q c (exists_apart q target c fs stays.0 absent)
              stays)
      ]
