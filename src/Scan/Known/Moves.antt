-- ===== src/Scan/Known/Moves.antt =====
-- What a planned move is: plan_moves.
use packrat.Prelude.{
  ℕ, ◌≡◌, refl, sym, ◌∙◌, ◌≢◌, ◌⊎◌, inl, inr, true, false, none, some, List, [], ◌∷◌, arith, All,
  All-imp, All-at, All-Has, Has, Bool-cases, Option-cases,
}
use mathlib.Core.Path.{subst}
use packrat.Scan.Walk.{Candidate, Enumeration, is_suppressed}
use packrat.Scan.Known.{
  Known, Bucket, same_bucket, key_of, get_known, candidate_bucket, known_bucket, absent_paths,
  is_enumerated, is_move, move_of, moves_from, plan_moves, within, is_complete,
}
use packrat.Prelude.Groups.{
  members_of, group_by, same_apart, Apart, Grouped-members_of, members_of-at, members_of-All,
  group_by-Apart, group_by-Grouped, group_by-complete,
}
use packrat.Paths.{same_path-≡, same_path_refl}

same_bucket-≡ : (a b : Bucket) → same_bucket a b ≡ true → a ≡ b
unfolding same_bucket
same_bucket-≡ a b h =
    let name : a.0 ≡ b.0 = same_path-≡ a.0 b.0 (ground arith) in
    let size : a.1 ≡ b.1 = ground arith in cc

same_bucket_refl : (a : Bucket) → same_bucket a a ≡ true
unfolding same_bucket
same_bucket_refl a = ground (arith, same_path_refl a.0)

module _ (lower : ℕ → ℕ) where
  -- A candidate whose path no row of the root has.
  abbrev pub Absent : List Known → Enumeration → Candidate → Type 0
  Absent existing en c =
      Has c en.candidates × (get_known lower (key_of lower c.path) existing ≡ none)

  -- The row is gone for sure, and its asset has all that a move leaves as it is.
  abbrev pub Gone : Enumeration → ℕ → Candidate → Known → Type 0
  Gone en tol c r =
      (r.is_trashed ≡ false)
      × (is_enumerated lower (key_of lower r.path) en.candidates ≡ false)
      × (is_suppressed lower en r.path ≡ false)
      × (within tol r.mtime c.mtime ≡ true)
      × (is_complete r ≡ true)

  -- The candidate and the row have one name and size, and are the only ones with these.
  abbrev pub Unambiguous : List Known → Enumeration → Candidate → Known → Type 0
  Unambiguous existing en c r =
      (candidate_bucket lower c ≡ known_bucket lower r)
      × ((s : Known) → Has s existing → known_bucket lower s ≡ known_bucket lower r → s ≡ r)
      × ((d : Candidate)
          → Absent existing en d
          → candidate_bucket lower d ≡ candidate_bucket lower c
          → d ≡ c)

  abbrev pub IsMove : List Known → Enumeration → ℕ → Candidate × Known → Type 0
  IsMove existing en tol m =
      Absent existing en m.0
      × Has m.1 existing
      × Unambiguous existing en m.0 m.1
      × Gone en tol m.0 m.1

  -- No two entries have rows with the same name and size.
  abbrev pub Separate : List (Candidate × Known) → Type 0
  Separate [] = Unit
  Separate (m ∷ rest) =
      All (λ n. known_bucket lower m.1 ≢ known_bucket lower n.1) rest × Separate rest

  is_move-Gone :
      (tol : ℕ) (en : Enumeration) (c : Candidate) (r : Known)
      → is_move lower tol en c r ≡ true
      → Gone en tol c r
  unfolding is_move
  is_move-Gone tol en c r h = (ground arith, ground arith, ground arith, ground arith, ground arith)

  abbrev One : ℕ → Enumeration → List Candidate → List Known → Type 0
  One tol en cands rows =
      (c : Candidate) × (r : Known) × (cands ≡ c ∷ [])
      × (rows ≡ r ∷ [])
      × (Gone en tol c r)
      × (move_of lower tol en cands rows ≡ (c, r) ∷ [])

  move_of_cases :
      (tol : ℕ) (en : Enumeration) (cands : List Candidate) (rows : List Known)
      → (move_of lower tol en cands rows ≡ []) ⊎ One tol en cands rows
  unfolding move_of
  move_of_cases tol en [] rows = inl refl
  move_of_cases tol en (c ∷ []) [] = inl refl
  move_of_cases tol en (c ∷ []) (r ∷ []) = elim (Bool-cases (is_move lower tol en c r)) [
    | inl proven ↦ inr (c, r, refl, refl, is_move-Gone tol en c r proven, rw proven refl)
    | inr unproven ↦ rw unproven (inl refl)
  ]
  move_of_cases tol en (c ∷ []) (r ∷ s ∷ rows) = inl refl
  move_of_cases tol en (c ∷ d ∷ cands) rows = inl refl

  absent_paths_kept :
      (existing : List Known) (d : Candidate) (cands : List Candidate)
      → get_known lower (key_of lower d.path) existing ≡ none
      → absent_paths lower existing (d ∷ cands) ≡ d ∷ absent_paths lower existing cands
  unfolding absent_paths
  absent_paths_kept existing d cands e = rw (absent_paths, e) refl

  absent_paths_left :
      (existing : List Known) (d : Candidate) (cands : List Candidate) (r : Known)
      → get_known lower (key_of lower d.path) existing ≡ some r
      → absent_paths lower existing (d ∷ cands) ≡ absent_paths lower existing cands
  unfolding absent_paths
  absent_paths_left existing d cands r e = rw (absent_paths, e) refl

  Has_absent :
      (existing : List Known) (cands : List Candidate) (c : Candidate)
      → Has c (absent_paths lower existing cands)
      → Has c cands × (get_known lower (key_of lower c.path) existing ≡ none)
  unfolding absent_paths
  Has_absent existing [] c m = absurd m
  Has_absent existing (d ∷ cands) c m =
      elim (Option-cases (get_known lower (key_of lower d.path) existing)) [
        | inl absent ↦ elim (subst (λ l. Has c l) (absent_paths_kept existing d cands absent) m) [
          | inl e ↦ (
            inl e,
            subst (λ x. get_known lower (key_of lower x.path) existing ≡ none) (sym e) absent,
          )
          | inr later ↦ let rest = Has_absent existing cands c later in (inr rest.0, rest.1)
        ]
        | inr known ↦
            let rest =
              Has_absent existing cands c
                (subst (λ l. Has c l) (absent_paths_left existing d cands known.0 known.1) m) in
            (inr rest.0, rest.1)
      ]

  absent_has :
      (existing : List Known) (cands : List Candidate) (c : Candidate)
      → Has c cands
      → get_known lower (key_of lower c.path) existing ≡ none
      → Has c (absent_paths lower existing cands)
  absent_has existing [] c m e = absurd m
  absent_has existing (d ∷ cands) c (inl same) e =
      subst (λ l. Has c l)
        (sym (
          absent_paths_kept existing d cands
            (subst (λ x. get_known lower (key_of lower x.path) existing ≡ none) same e)))
        (inl same)
  absent_has existing (d ∷ cands) c (inr m) e =
      elim (Option-cases (get_known lower (key_of lower d.path) existing)) [
        | inl absent ↦
            subst (λ l. Has c l) (sym (absent_paths_kept existing d cands absent))
              (inr (absent_has existing cands c m e))
        | inr known ↦
            subst (λ l. Has c l) (sym (absent_paths_left existing d cands known.0 known.1))
              (absent_has existing cands c m e)
      ]

  -- Two lists with one member each: whatever is in the list is it.
  only : {A : Type 0} (xs : List A) (a b : A) → xs ≡ a ∷ [] → Has b xs → b ≡ a
  only xs a b e m = elim (subst (λ l. Has b l) e m) [
    | inl same ↦ same
    | inr none_left ↦ absurd none_left
  ]

  module _ (existing : List Known) (en : Enumeration) (tol : ℕ) where
    abbrev row_groups : List (Bucket × List Known)
    row_groups = group_by same_bucket (known_bucket lower) existing []

    abbrev absents : List Candidate
    absents = absent_paths lower existing en.candidates

    abbrev absent_groups : List (Bucket × List Candidate)
    absent_groups = group_by same_bucket (candidate_bucket lower) absents []

    -- The one row and the one candidate of a group make a move.
    One-IsMove :
        (k : Bucket) (cands : List Candidate)
        → Has (k, cands) absent_groups
        → (one : One tol en cands (members_of same_bucket k row_groups))
        → IsMove existing en tol (one.0, one.1) × (k ≡ known_bucket lower one.1)
    One-IsMove k cands m (c, r, one_cand, one_row, gone, _) =
        let in_rows : Has r (members_of same_bucket k row_groups) =
          subst (λ l. Has r l) (sym one_row) (inl refl) in
        let mine : members_of same_bucket k absent_groups ≡ cands =
          members_of-at same_bucket same_bucket-≡ same_bucket_refl k cands absent_groups
            (group_by-Apart same_bucket same_bucket-≡ same_bucket_refl (candidate_bucket lower)
              absents [] tt)
            m in
        let in_absents : Has c (members_of same_bucket k absent_groups) =
          subst (λ l. Has c l) (sym (mine ∙ one_cand)) (inl refl) in
        let row_key : k ≡ known_bucket lower r =
          All-at (λ s. k ≡ known_bucket lower s) (members_of same_bucket k row_groups)
            (Grouped-members_of same_bucket same_bucket-≡ same_bucket_refl (known_bucket lower) k
              row_groups
              (group_by-Grouped same_bucket same_bucket-≡ same_bucket_refl (known_bucket lower)
                existing [] tt))
            in_rows in
        let cand_key : k ≡ candidate_bucket lower c =
          All-at (λ d. k ≡ candidate_bucket lower d) (members_of same_bucket k absent_groups)
            (Grouped-members_of same_bucket same_bucket-≡ same_bucket_refl (candidate_bucket lower)
              k absent_groups
              (group_by-Grouped same_bucket same_bucket-≡ same_bucket_refl (candidate_bucket lower)
                absents [] tt))
            in_absents in
        let absent = Has_absent existing en.candidates c (
          All-at (λ d. Has d absents) (members_of same_bucket k absent_groups)
            (members_of-All same_bucket same_bucket-≡ same_bucket_refl (λ d. Has d absents)
              (candidate_bucket lower) absents k (All-Has absents))
            in_absents) in
        let row =
          All-at (λ s. Has s existing) (members_of same_bucket k row_groups)
            (members_of-All same_bucket same_bucket-≡ same_bucket_refl (λ s. Has s existing)
              (known_bucket lower) existing k (All-Has existing))
            in_rows in
        let one_known : (s : Known)
            → Has s existing
            → known_bucket lower s ≡ known_bucket lower r
            → s ≡ r =
          λ s has same. only (members_of same_bucket k row_groups) r s one_row (
            subst (λ j. Has s (members_of same_bucket j row_groups)) (same ∙ sym row_key)
              (group_by-complete same_bucket same_bucket-≡ same_bucket_refl (known_bucket lower)
                existing [] s has)) in
        let one_absent : (d : Candidate)
            → Absent existing en d
            → candidate_bucket lower d ≡ candidate_bucket lower c
            → d ≡ c =
          λ d unknown same. only (members_of same_bucket k absent_groups) c d (mine ∙ one_cand) (
            subst (λ j. Has d (members_of same_bucket j absent_groups)) (same ∙ sym cand_key)
              (group_by-complete same_bucket same_bucket-≡ same_bucket_refl (candidate_bucket lower)
                absents [] d (absent_has existing en.candidates d unknown.0 unknown.1))) in
        ((absent, row, (sym cand_key ∙ row_key, one_known, one_absent), gone), row_key)

    abbrev Keyed : List (Bucket × List Candidate) → List (Candidate × Known) → Type 0
    Keyed groups ms =
        All (λ m. (g : Bucket × List Candidate) × Has g groups × (g.0 ≡ known_bucket lower m.1)) ms

    -- The moves from some of the groups.
    abbrev Outcome : List (Bucket × List Candidate) → List (Candidate × Known) → Type 0
    Outcome groups ms = All (IsMove existing en tol) ms × Keyed groups ms × Separate ms

    moves_from-Outcome :
        (groups : List (Bucket × List Candidate))
        → Apart same_bucket same_bucket-≡ same_bucket_refl groups
        → ((g : Bucket × List Candidate) → Has g groups → Has g absent_groups)
        → Outcome groups (moves_from lower tol en row_groups groups)
    unfolding moves_from
    moves_from-Outcome [] apart mem = (tt, tt, tt)
    moves_from-Outcome ((k, cands) ∷ rest) apart mem =
        let below = moves_from-Outcome rest apart.1 (λ g m. mem g (inr m)) in
        let later = All-imp _ (λ m found. (found.0, inr found.1, found.2)) below.1 in
        elim (move_of_cases tol en cands (members_of same_bucket k row_groups)) [
          | inl nothing_here ↦ rw nothing_here (below.0, later, below.2)
          | inr one ↦
              let made = One-IsMove k cands (mem (k, cands) (inl refl)) one in
              let apart_later =
                All-imp _
                  (λ n found same.
                    same_apart same_bucket same_bucket-≡ same_bucket_refl k found.0.0
                      (All-at (λ g. same_bucket k g.0 ≡ false) rest apart.0 found.1)
                      (made.1 ∙ (same ∙ sym found.2)))
                  below.1 in
              rw one.5 ((made.0, below.0), ((_, inl refl, made.1), later), (apart_later, below.2))
        ]

    -- Each planned move joins a candidate, at a path that no row has, and a row of the root whose
    -- file is gone: it is not among the candidates and stands in no suppressed folder. The two are
    -- the only ones with their name and size, their times agree within the tolerance, and the row's
    -- asset is active and fully fingerprinted. No two moves have the same row.
    pub plan_moves-IsMove :
        All (IsMove existing en tol) (plan_moves lower existing en tol)
        × Separate (plan_moves lower existing en tol)
    unfolding plan_moves
    plan_moves-IsMove =
        let all =
          moves_from-Outcome absent_groups
            (group_by-Apart same_bucket same_bucket-≡ same_bucket_refl (candidate_bucket lower)
              absents [] tt)
            (λ g m. m) in
        (all.0, all.2)
