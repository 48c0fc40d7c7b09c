-- ===== src/Dedup/Plan/Survivors.antt =====
-- The survivor of an asset is never a target.
use packrat.Prelude.{
  ℕ, ◌≡◌, refl, sym, ap, ◌∙◌, ◌≢◌, ◌⊎◌, inl, inr, Bool, true, false, ◌&&◌, List, [], ◌∷◌, ◌++◌,
  arith, All, All-imp, All-at, Has, ◌==◌, Bool-cases,
}
use mathlib.Core.Path.{subst}
use packrat.Prelude.Groups.{
  members_of, group_by, members_of-at, group_by-Apart, group_by-Grouped, group_by-Everywhere,
}
use packrat.Scan.Catalogue.{InstanceRow, Catalogue}
use packrat.Dedup.Apply.{same_number}
use packrat.Dedup.Apply.LastCopy.{number-≡, number_refl}
use packrat.Dedup.Plan.{
  Reason, exact_external, exact_internal_preferred, exact_internal, Planned, is_active, in_root,
  exact_rows, exact_action, inside, outside, first_by, by_path, by_mtime_path, all_but, all_of,
  plan_split, plan_asset, plan_assets, plan_exact,
}

exact_rows-Has :
    (root : ℕ) (cat : Catalogue) (rows : List InstanceRow)
    → All (λ i. Has i rows) (exact_rows root cat rows)
unfolding exact_rows
exact_rows-Has root cat [] = tt
exact_rows-Has root cat (i ∷ rows) =
    let below = All-imp _ (λ j m. inr m) (exact_rows-Has root cat rows) in
    elim (Bool-cases (is_active i.asset_id cat.assets && in_root root i.asset_id cat.instances)) [
      | inl kept ↦ rw kept (inl refl, below)
      | inr left ↦ rw left below
    ]

inside-Has :
    (root : ℕ) (rows : List InstanceRow)
    → All (λ i. Has i rows × (i.root_id ≡ root)) (inside root rows)
unfolding inside
inside-Has root [] = tt
inside-Has root (i ∷ rows) =
    let below = All-imp _ (λ j found. (inr found.0, found.1)) (inside-Has root rows) in
    elim (Bool-cases (i.root_id == root)) [
      | inl here ↦ rw here ((inl refl, ground arith), below)
      | inr away ↦ rw away below
    ]

outside-Has :
    (root : ℕ) (rows : List InstanceRow)
    → All (λ i. Has i rows × (i.root_id ≢ root)) (outside root rows)
unfolding outside
outside-Has root [] = tt
outside-Has root (i ∷ rows) =
    let below = All-imp _ (λ j found. (inr found.0, found.1)) (outside-Has root rows) in
    elim (Bool-cases (i.root_id == root)) [
      | inl here ↦ rw here below
      | inr away ↦ rw away ((inl refl, (λ e. absurd (ground arith))), below)
    ]

first_by_less :
    (lt : InstanceRow → InstanceRow → Bool) (i j : InstanceRow) (rest : List InstanceRow)
    → lt j i ≡ true
    → first_by lt i (j ∷ rest) ≡ first_by lt j rest
unfolding first_by
first_by_less lt i j rest e = rw e refl

first_by_more :
    (lt : InstanceRow → InstanceRow → Bool) (i j : InstanceRow) (rest : List InstanceRow)
    → lt j i ≡ false
    → first_by lt i (j ∷ rest) ≡ first_by lt i rest
unfolding first_by
first_by_more lt i j rest e = rw e refl

first_by_alone : (lt : InstanceRow → InstanceRow → Bool) (i : InstanceRow) → first_by lt i [] ≡ i
unfolding first_by
first_by_alone lt i = refl

wider : (x i j : InstanceRow) (rest : List InstanceRow) → Has x (i ∷ rest) → Has x (i ∷ j ∷ rest)
wider x i j rest (inl e) = inl e
wider x i j rest (inr m) = inr (inr m)

first_by-Has :
    (lt : InstanceRow → InstanceRow → Bool) (i : InstanceRow) (rest : List InstanceRow)
    → Has (first_by lt i rest) (i ∷ rest)
first_by-Has lt i [] = inl (first_by_alone lt i)
first_by-Has lt i (j ∷ rest) = elim (Bool-cases (lt j i)) [
  | inl less ↦
      subst (λ x. Has x (i ∷ j ∷ rest)) (sym (first_by_less lt i j rest less))
        (inr (first_by-Has lt j rest))
  | inr more ↦
      subst (λ x. Has x (i ∷ j ∷ rest)) (sym (first_by_more lt i j rest more))
        (wider (first_by lt i rest) i j rest (first_by-Has lt i rest))
]

-- A deletion of another instance than the survivor, which keeps the survivor's content.
abbrev Target : InstanceRow → List InstanceRow → Planned → Type 0
Target s insts q =
    (q.survivor_instance_id ≡ s.id)
    × (q.instance_id ≢ s.id)
    × ((t : InstanceRow) × Has t insts × (q.instance_id ≡ t.id) × (q.asset_id ≡ t.asset_id))

abbrev Chosen : List InstanceRow → List Planned → Type 0
Chosen insts planned =
    (planned ≡ []) ⊎ ((s : InstanceRow) × Has s insts × All (Target s insts) planned)

-- The ids of the rows are different.
abbrev pub OneId : List InstanceRow → Type 0
OneId rows = (a b : InstanceRow) → Has a rows → Has b rows → a.id ≡ b.id → a ≡ b

module _ (lower : ℕ → ℕ) (root : ℕ) where
  all_but-Target :
      (s : InstanceRow) (reason : Reason) (insts rows : List InstanceRow)
      → ((t : InstanceRow) → Has t rows → Has t insts)
      → All (Target s insts) (all_but lower root s reason rows)
  unfolding all_but exact_action
  all_but-Target s reason insts [] among = tt
  all_but-Target s reason insts (i ∷ rows) among =
      let below = all_but-Target s reason insts rows (λ t m. among t (inr m)) in
      elim (Bool-cases (i.id == s.id)) [
        | inl survivor ↦ rw survivor below
        | inr other ↦
            rw other
              ((refl, (λ e. absurd (ground arith)), (i, among i (inl refl), refl, refl)), below)
      ]

  all_of-Target :
      (s : InstanceRow) (reason : Reason) (insts rows : List InstanceRow)
      → All (λ t. Has t insts × (t.id ≢ s.id)) rows
      → All (Target s insts) (all_of lower root s reason rows)
  unfolding all_of exact_action
  all_of-Target s reason insts [] among = tt
  all_of-Target s reason insts (i ∷ rows) among =
      ((refl, among.0.1, (i, among.0.0, refl, refl)), all_of-Target s reason insts rows among.1)

  plan_split-Chosen :
      (prefer : Bool) (insts internal external : List InstanceRow)
      → OneId insts
      → All (λ i. Has i insts × (i.root_id ≡ root)) internal
      → All (λ i. Has i insts × (i.root_id ≢ root)) external
      → Chosen insts (plan_split lower root prefer insts internal external)
  unfolding plan_split
  plan_split-Chosen prefer insts [] external one ins outs = inl refl
  plan_split-Chosen true insts (i ∷ internal) (e ∷ external) one ins outs =
      let s = first_by (by_mtime_path lower root) i internal in
      inr (
        s,
        (All-at (λ j. Has j insts × (j.root_id ≡ root)) (i ∷ internal) ins
            (first_by-Has _ i internal)).0,
        all_but-Target s exact_internal_preferred insts insts (λ t m. m),
      )
  plan_split-Chosen false insts (i ∷ internal) (e ∷ external) one ins outs =
      let s = first_by (by_path lower root) e external in
      let away =
        All-at (λ j. Has j insts × (j.root_id ≢ root)) (e ∷ external) outs
          (first_by-Has _ e external) in
      inr (
        s,
        away.0,
        all_of-Target s exact_external insts (i ∷ internal) (
            All-imp (i ∷ internal)
              (λ t inside_t. (
                inside_t.0,
                (λ same. away.1 (
                    ap (λ (x : InstanceRow). x.root_id) (sym (one t s inside_t.0 away.0 same))
                    ∙ inside_t.1)),
              ))
              ins),
      )
  plan_split-Chosen false insts (i ∷ []) [] one ins outs = inl refl
  plan_split-Chosen true insts (i ∷ []) [] one ins outs = inl refl
  plan_split-Chosen prefer insts (i ∷ j ∷ internal) [] one ins outs =
      let s = first_by (by_mtime_path lower root) i (j ∷ internal) in
      inr (
        s,
        (All-at (λ t. Has t insts × (t.root_id ≡ root)) (i ∷ j ∷ internal) ins
            (first_by-Has _ i (j ∷ internal))).0,
        all_but-Target s exact_internal insts (i ∷ j ∷ internal)
            (λ t m. (All-at (λ x. Has x insts × (x.root_id ≡ root)) (i ∷ j ∷ internal) ins m).0),
      )

  plan_asset-Chosen :
      (prefer : Bool) (insts : List InstanceRow)
      → OneId insts
      → Chosen insts (plan_asset lower root prefer insts)
  unfolding plan_asset
  plan_asset-Chosen prefer insts one =
      plan_split-Chosen prefer insts (inside root insts) (outside root insts) one
        (inside-Has root insts) (outside-Has root insts)

  split_planned : (q : Planned) (xs ys : List Planned) → Has q (xs ++ ys) → Has q xs ⊎ Has q ys
  split_planned q [] ys m = inr m
  split_planned q (x ∷ xs) ys (inl e) = inl (inl e)
  split_planned q (x ∷ xs) ys (inr m) = elim (split_planned q xs ys m) [
    | inl left ↦ inl (inr left)
    | inr right ↦ inr right
  ]

  group_of :
      (prefer : Bool) (groups : List (ℕ × List InstanceRow)) (q : Planned)
      → Has q (plan_assets lower root prefer groups)
      → (k : ℕ) × (insts : List InstanceRow) × Has (k, insts) groups
        × Has q (plan_asset lower root prefer insts)
  unfolding plan_assets
  group_of prefer [] q m = absurd m
  group_of prefer ((k, insts) ∷ rest) q m =
      elim (split_planned q (plan_asset lower root prefer insts) _ m) [
        | inl here ↦ (k, insts, inl refl, here)
        | inr later ↦
            let (j, others, has, planned) = group_of prefer rest q later in
            (j, others, inr has, planned)
      ]

  -- An action of a group is a target of its group's survivor.
  Chosen-Target :
      (insts : List InstanceRow) (planned : List Planned) (q : Planned)
      → Chosen insts planned
      → Has q planned
      → (s : InstanceRow) × Has s insts × All (Target s insts) planned
  Chosen-Target insts planned q (inl empty) m = absurd (subst (λ l. Has q l) empty m)
  Chosen-Target insts planned q (inr chosen) m = chosen

  module _ (prefer : Bool) (cat : Catalogue) (one : OneId cat.instances) where
    abbrev rows : List InstanceRow
    rows = exact_rows root cat cat.instances

    abbrev groups : List (ℕ × List InstanceRow)
    groups = group_by same_number (λ i. i.asset_id) rows []

    abbrev Gathered : ℕ → List InstanceRow → Type 0
    Gathered k insts =
        All (λ i. Has i cat.instances) insts × All (λ (i : InstanceRow). k ≡ i.asset_id) insts

    groups-Gathered : (k : ℕ) (insts : List InstanceRow) → Has (k, insts) groups → Gathered k insts
    groups-Gathered k insts m = (
      All-at (λ (g : ℕ × List InstanceRow). All (λ i. Has i cat.instances) g.1) groups
          (group_by-Everywhere same_number number-≡ number_refl (λ i. Has i cat.instances)
            (λ (i : InstanceRow). i.asset_id) rows [] (exact_rows-Has root cat cat.instances) tt)
          m,
      All-at (λ (g : ℕ × List InstanceRow). All (λ i. g.0 ≡ i.asset_id) g.1) groups
          (group_by-Grouped same_number number-≡ number_refl (λ (i : InstanceRow). i.asset_id) rows
            [] tt)
          m,
    )

    chosen :
        (k : ℕ) (insts : List InstanceRow)
        → Gathered k insts
        → Chosen insts (plan_asset lower root prefer insts)
    chosen k insts group = plan_asset-Chosen prefer insts (λ a b ma mb.
        one a b (All-at (λ i. Has i cat.instances) insts group.0 ma)
          (All-at (λ i. Has i cat.instances) insts group.0 mb))

    members :
        (k : ℕ) (insts : List InstanceRow)
        → Has (k, insts) groups
        → members_of same_number k groups ≡ insts
    members k insts m =
        members_of-at same_number number-≡ number_refl k insts groups
          (group_by-Apart same_number number-≡ number_refl (λ (i : InstanceRow). i.asset_id) rows []
            tt)
          m

    -- Each action of the first stage names a survivor, which is an instance of the same asset, and no
    -- action at all deletes that survivor: with or without the preference for internal copies, and
    -- wherever the copies stand. The ids of the instances are different.
    pub plan_exact-survivor :
        (q : Planned)
        → Has q (plan_exact lower root prefer cat)
        → (s : InstanceRow) × Has s cat.instances
          × (q.survivor_instance_id ≡ s.id)
          × (q.asset_id ≡ s.asset_id)
          × ((r : Planned) → Has r (plan_exact lower root prefer cat) → r.instance_id ≢ s.id)
    unfolding plan_exact
    plan_exact-survivor q m =
        let (k, insts, has, planned) = group_of prefer groups q m in
        let group = groups-Gathered k insts has in
        let (s, ms, targets) = Chosen-Target insts _ q (chosen k insts group) planned in
        let (names, spared, (t, mt, id, asset)) =
          All-at (Target s insts) (plan_asset lower root prefer insts) targets planned in
        let in_table = All-at (λ i. Has i cat.instances) insts group.0 in
        let key = λ (i : InstanceRow) (mi : Has i insts).
          All-at (λ (j : InstanceRow). k ≡ j.asset_id) insts group.1 mi in
        (
          s,
          in_table ms,
          names,
          asset ∙ (sym (key t mt) ∙ key s ms),
          (λ r mr same.
              let (j, more, has_r, planned_r) = group_of prefer groups r mr in
              let group_r = groups-Gathered j more has_r in
              let (v, mv, targets_r) = Chosen-Target more _ r (chosen j more group_r) planned_r in
              let (_, _, (u, mu, id_r, _)) =
                All-at (Target v more) (plan_asset lower root prefer more) targets_r planned_r in
              let one_row : u ≡ s =
                one u s (All-at (λ i. Has i cat.instances) more group_r.0 mu) (in_table ms)
                  (sym id_r ∙ same) in
              let one_key : j ≡ k =
                All-at (λ (i : InstanceRow). j ≡ i.asset_id) more group_r.1 mu
                ∙ (ap (λ (i : InstanceRow). i.asset_id) one_row ∙ sym (key s ms)) in
              let one_group : more ≡ insts =
                sym (members j more has_r)
                ∙ (ap (λ i. members_of same_number i groups) one_key ∙ members k insts has) in
              let planned_here : Has r (plan_asset lower root prefer insts) =
                subst (λ l. Has r (plan_asset lower root prefer l)) one_group planned_r in
              (All-at (Target s insts) (plan_asset lower root prefer insts) targets planned_here).1
                same),
        )
