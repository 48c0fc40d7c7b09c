-- ===== src/Scan/Pass/Keeps.antt =====
-- No file that is still there is taken for deleted.
use packrat.Prelude.{
  ℕ, ◌≡◌, refl, sym, ◌∙◌, inl, inr, Bool, true, false, not, ◌&&◌, Option, none, some, List, [], ◌∷◌,
  ◌++◌, arith, All, Has, Bool-cases,
}
use mathlib.Core.Path.{subst}
use packrat.Paths.{FilePath, same_path, same_path-≡, same_path_refl}
use packrat.Scan.Walk.{Candidate}
use packrat.Scan.Known.{
  Known, is_fastpath_hit, key_of, set_known, get_known, load_existing_instances,
}
use packrat.Scan.Pass.{
  Sorted, see, skip_unchanged, process_or_move, contains, get_move, sort_one, sort_all,
}

module _ (lower : ℕ → ℕ) where
  -- No two rows of the dict have one key.
  abbrev pub OneKey : List Known → Type 0
  OneKey [] = Unit
  OneKey (r ∷ rest) = (get_known lower (key_of lower r.path) rest ≡ none) × OneKey rest

  get_known_here :
      (k : FilePath) (q : Known) (rest : List Known)
      → same_path (key_of lower q.path) k ≡ true
      → get_known lower k (q ∷ rest) ≡ some q
  unfolding get_known
  get_known_here k q rest e = rw e refl

  get_known_later :
      (k : FilePath) (q : Known) (rest : List Known)
      → same_path (key_of lower q.path) k ≡ false
      → get_known lower k (q ∷ rest) ≡ get_known lower k rest
  unfolding get_known
  get_known_later k q rest e = rw e refl

  get_known-none :
      (k : FilePath) (q : Known) (rest : List Known)
      → get_known lower k (q ∷ rest) ≡ none
      → (same_path (key_of lower q.path) k ≡ false) × (get_known lower k rest ≡ none)
  get_known-none k q rest e = elim (Bool-cases (same_path (key_of lower q.path) k)) [
    | inl here ↦ let found = sym e ∙ get_known_here k q rest here in cc
    | inr later ↦ (later, sym (get_known_later k q rest later) ∙ e)
  ]

  get_known_nil : (k : FilePath) → get_known lower k [] ≡ none
  unfolding get_known
  get_known_nil k = refl

  get_known-set :
      (k : FilePath) (r : Known) (rows : List Known)
      → same_path (key_of lower r.path) k ≡ false
      → get_known lower k rows ≡ none
      → get_known lower k (set_known lower r rows) ≡ none
  unfolding set_known
  get_known-set k r [] other e = get_known_later k r [] other ∙ get_known_nil k
  get_known-set k r (q ∷ rows) other e =
      let (away, rest) = get_known-none k q rows e in
      elim (Bool-cases (same_path (key_of lower q.path) (key_of lower r.path))) [
        | inl here ↦ rw here (get_known_later k r rows other ∙ rest)
        | inr later ↦ rw later (get_known_later k q _ away ∙ get_known-set k r rows other rest)
      ]

  same_path-false : (p q : FilePath) → same_path p q ≡ false → same_path q p ≡ false
  same_path-false p q h = elim (Bool-cases (same_path q p)) [
    | inl same ↦
        let back =
          subst (λ x. same_path p x ≡ true) (sym (same_path-≡ q p same)) (same_path_refl p) in
        cc
    | inr apart ↦ apart
  ]

  OneKey-set : (r : Known) (rows : List Known) → OneKey rows → OneKey (set_known lower r rows)
  unfolding set_known
  OneKey-set r [] one = (get_known_nil _, tt)
  OneKey-set r (q ∷ rows) one =
      elim (Bool-cases (same_path (key_of lower q.path) (key_of lower r.path))) [
        | inl here ↦ rw here (
          subst (λ k. get_known lower k rows ≡ none)
              (same_path-≡ (key_of lower q.path) (key_of lower r.path) here) one.0,
          one.1,
        )
        | inr later ↦ rw later (
          get_known-set (key_of lower q.path) r rows (same_path-false _ _ later) one.0,
          OneKey-set r rows one.1,
        )
      ]

  pub load-OneKey :
      (rows existing : List Known)
      → OneKey existing
      → OneKey (load_existing_instances lower rows existing)
  unfolding load_existing_instances
  load-OneKey [] existing one = one
  load-OneKey (r ∷ rows) existing one = load-OneKey rows _ (OneKey-set r existing one)

  apart_key :
      (r q : Known) (rows : List Known)
      → get_known lower (key_of lower q.path) rows ≡ none
      → get_known lower (key_of lower r.path) rows ≡ some r
      → same_path (key_of lower q.path) (key_of lower r.path) ≡ false
  apart_key r q rows free found =
      elim (Bool-cases (same_path (key_of lower q.path) (key_of lower r.path))) [
        | inl same ↦
            let missing : get_known lower (key_of lower r.path) rows ≡ none =
              subst (λ k. get_known lower k rows ≡ none) (same_path-≡ _ _ same) free in
            let both = sym missing ∙ found in cc
        | inr apart ↦ apart
      ]

  -- A row of the dict is what the dict gives for its own key.
  pub get_known-Has :
      (r : Known) (rows : List Known)
      → OneKey rows
      → Has r rows
      → get_known lower (key_of lower r.path) rows ≡ some r
  get_known-Has r [] one m = absurd m
  get_known-Has r (q ∷ rows) one (inl e) =
      subst (λ x. get_known lower (key_of lower x.path) (q ∷ rows) ≡ some x) (sym e)
        (get_known_here (key_of lower q.path) q rows (same_path_refl (key_of lower q.path)))
  get_known-Has r (q ∷ rows) one (inr m) =
      let found = get_known-Has r rows one.1 m in
      get_known_later (key_of lower r.path) q rows (apart_key r q rows one.0 found) ∙ found

contains_more : (j k : ℕ) (seen : List ℕ) → contains k seen ≡ true → contains k (j ∷ seen) ≡ true
unfolding contains
contains_more j k seen h = ground arith

contains_here : (k : ℕ) (seen : List ℕ) → contains k (k ∷ seen) ≡ true
unfolding contains
contains_here k seen = ground arith

-- What was seen stays seen.
abbrev Sees : ℕ → Sorted → Type 0
Sees k s = contains k s.seen_fids ≡ true

module _ (lower : ℕ → ℕ) (full : Bool) (tol : ℕ) (existing : List Known)
    (moves : List (Candidate × Known)) where
  -- No move is planned to a path that some row has.
  abbrev pub ToAbsent : List (Candidate × Known) → Type 0
  ToAbsent ms = All (λ m. get_known lower (key_of lower m.0.path) existing ≡ none) ms

  get_move_absent :
      (k : FilePath) (r : Known) (ms : List (Candidate × Known))
      → ToAbsent ms
      → get_known lower k existing ≡ some r
      → get_move lower k ms ≡ none
  unfolding get_move
  get_move_absent k r [] absent e = refl
  get_move_absent k r ((c, o) ∷ ms) absent e =
      rw (get_move_absent k r ms absent.1 e)
        (elim (Bool-cases (same_path (key_of lower c.path) k)) [
          | inl same ↦
              let missing : get_known lower k existing ≡ none =
                subst (λ j. get_known lower j existing ≡ none)
                  (same_path-≡ (key_of lower c.path) k same) absent.0 in
              let both = sym missing ∙ e in cc
          | inr apart ↦ rw apart refl
        ])

  see-Sees : (k : ℕ) (o : Option Known) (s : Sorted) → Sees k s → Sees k (see o s)
  unfolding see
  see-Sees k none s h = h
  see-Sees k (some r) s h = contains_more r.fid k s.seen_fids h

  skip-Sees : (k : ℕ) (o : Option Known) (s : Sorted) → Sees k s → Sees k (skip_unchanged o s)
  unfolding skip_unchanged
  skip-Sees k none s h = h
  skip-Sees k (some r) s h = contains_more r.fid k s.seen_fids h

  move-Sees :
      (k : ℕ) (c : Candidate) (o m : Option Known) (s : Sorted)
      → Sees k s
      → Sees k (process_or_move c o m s)
  unfolding process_or_move
  move-Sees k c o none s h = see-Sees k o _ h
  move-Sees k c o (some origin) s h =
      see-Sees k (some origin) (record s { moved = s.moved ++ (c, origin) ∷ [] }) h

  sort_one-Sees :
      (k : ℕ) (c : Candidate) (s : Sorted)
      → Sees k s
      → Sees k (sort_one lower full tol existing moves c s)
  unfolding sort_one
  sort_one-Sees k c s h =
      let o = get_known lower (key_of lower c.path) existing in
      elim (Bool-cases (not full && is_fastpath_hit tol o c)) [
        | inl hit ↦ rw hit (skip-Sees k o s h)
        | inr miss ↦ rw miss (move-Sees k c o _ s h)
      ]

  -- The row at the candidate's path is seen, on each branch.
  sort_one-Sees_row :
      (c : Candidate) (r : Known) (s : Sorted)
      → ToAbsent moves
      → get_known lower (key_of lower c.path) existing ≡ some r
      → Sees r.fid (sort_one lower full tol existing moves c s)
  unfolding sort_one process_or_move skip_unchanged see
  sort_one-Sees_row c r s absent e =
      elim (Bool-cases (not full && is_fastpath_hit tol (some r) c)) [
        | inl hit ↦ rw (e, hit) (contains_here r.fid s.seen_fids)
        | inr miss ↦
            rw (e, miss, get_move_absent (key_of lower c.path) r moves absent e)
              (contains_here r.fid s.seen_fids)
      ]

  sort_all-Sees :
      (k : ℕ) (cands : List Candidate) (s : Sorted)
      → Sees k s
      → Sees k (sort_all lower full tol existing moves cands s)
  unfolding sort_all
  sort_all-Sees k [] s h = h
  sort_all-Sees k (c ∷ cands) s h = sort_all-Sees k cands _ (sort_one-Sees k c s h)

  pub sort_all-Sees_row :
      (cands : List Candidate) (c : Candidate) (r : Known) (s : Sorted)
      → ToAbsent moves
      → Has c cands
      → get_known lower (key_of lower c.path) existing ≡ some r
      → Sees r.fid (sort_all lower full tol existing moves cands s)
  unfolding sort_all
  sort_all-Sees_row [] c r s absent m e = absurd m
  sort_all-Sees_row (d ∷ cands) c r s absent (inl same) e = sort_all-Sees r.fid cands _ (
      sort_one-Sees_row d r s absent
        (subst (λ x. get_known lower (key_of lower x.path) existing ≡ some r) same e))
  sort_all-Sees_row (d ∷ cands) c r s absent (inr m) e = sort_all-Sees_row cands c r _ absent m e
