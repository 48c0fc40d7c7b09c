-- ===== src/Dedup/Apply/Suggested.antt =====
-- Keeping only what was suggested never empties a group: _keep_suggested_intended.
use packrat.Prelude.{
  ℕ, ◌≡◌, refl, sym, ◌∙◌, ◌⊎◌, inl, inr, Bool, true, false, List, [], ◌∷◌, ◌++◌, arith, All,
  All-imp, All-at, All-Has, Has, Bool-cases,
}
use mathlib.Core.Path.{subst}
use packrat.Prelude.Groups.{group_by, group_by-Grouped, group_by-Everywhere}
use packrat.Paths.{FilePath}
use packrat.Dedup.Apply.{
  Action, same_number, has_id, without, leads_of, group_intended, groups_intended,
  keep_suggested_intended,
}
use packrat.Dedup.Apply.LastCopy.{number-≡, number_refl}

Has-split : (a : Action) (xs ys : List Action) → Has a (xs ++ ys) → Has a xs ⊎ Has a ys
Has-split a [] ys m = inr m
Has-split a (x ∷ xs) ys (inl e) = inl (inl e)
Has-split a (x ∷ xs) ys (inr m) = elim (Has-split a xs ys m) [
  | inl left ↦ inl (inr left)
  | inr right ↦ inr right
]

has_id_more :
    (k : ℕ) (l : Action) (ls : List Action) → has_id k ls ≡ true → has_id k (l ∷ ls) ≡ true
unfolding has_id
has_id_more k l ls h = ground arith

has_id_self : (l : Action) (ls : List Action) → has_id l.id (l ∷ ls) ≡ true
unfolding has_id
has_id_self l ls = ground arith

kept_plain :
    (leads : List Action) (x : Action) (xs : List Action)
    → has_id x.id leads ≡ false
    → without leads (x ∷ xs) ≡ x ∷ without leads xs
unfolding without
kept_plain leads x xs plain = rw plain refl

without-Has :
    (leads xs : List Action) (a : Action)
    → Has a (without leads xs)
    → Has a xs × (has_id a.id leads ≡ false)
unfolding without
without-Has leads [] a m = absurd m
without-Has leads (x ∷ xs) a m = elim (Bool-cases (has_id x.id leads)) [
  | inl lead ↦
      let (has, apart) =
        without-Has leads xs a (subst (λ l. Has a l) (rw (without, lead) refl) m) in
      (inr has, apart)
  | inr plain ↦
      let still : Has a (x ∷ without leads xs) =
        subst (λ l. Has a l) (kept_plain leads x xs plain) m in
      elim still [
        | inl same ↦ (inl same, subst (λ (y : Action). has_id y.id leads ≡ false) (sym same) plain)
        | inr later ↦ let (has, apart) = without-Has leads xs a later in (inr has, apart)
      ]
]

module _ (is_marked : FilePath → Bool) where
  leads_of-has_id :
      (xs : List Action) (a : Action)
      → Has a xs
      → is_marked a.shortcut_name ≡ true
      → has_id a.id (leads_of is_marked xs) ≡ true
  unfolding leads_of
  leads_of-has_id [] a m marked = absurd m
  leads_of-has_id (x ∷ xs) a m marked = elim (Bool-cases (is_marked x.shortcut_name)) [
    | inl lead ↦ rw lead (elim m [
      | inl same ↦
          subst (λ (y : Action). has_id y.id (x ∷ leads_of is_marked xs) ≡ true) (sym same)
            (has_id_self x (leads_of is_marked xs))
      | inr later ↦ has_id_more a.id x _ (leads_of-has_id xs a later marked)
    ])
    | inr plain ↦ rw plain (elim m [
      | inl same ↦
          let both =
            sym (subst (λ (y : Action). is_marked y.shortcut_name ≡ true) same marked) ∙ plain in
          cc
      | inr later ↦ leads_of-has_id xs a later marked
    ])
  ]

  abbrev Marked : List Action → Action → Type 0
  Marked members l = Has l members × (is_marked l.shortcut_name ≡ true)

  leads_of-Marked : (members : List Action) → All (Marked members) (leads_of is_marked members)
  unfolding leads_of
  leads_of-Marked [] = tt
  leads_of-Marked (x ∷ xs) =
      let below = All-imp _ (λ l found. (inr found.0, found.1)) (leads_of-Marked xs) in
      elim (Bool-cases (is_marked x.shortcut_name)) [
        | inl lead ↦ rw lead ((inl refl, lead), below)
        | inr plain ↦ rw plain below
      ]

  -- One that is deleted is no lead, and a lead stands beside it.
  abbrev Beside : List Action → Action → Type 0
  Beside members a =
      Has a members × (is_marked a.shortcut_name ≡ false) × ((l : Action) × Marked members l)

  unmarked :
      (members : List Action) (a : Action)
      → Has a members
      → has_id a.id (leads_of is_marked members) ≡ false
      → is_marked a.shortcut_name ≡ false
  unmarked members a m apart = elim (Bool-cases (is_marked a.shortcut_name)) [
    | inl marked ↦ let both = sym (leads_of-has_id members a m marked) ∙ apart in cc
    | inr plain ↦ plain
  ]

  group_intended-Beside :
      (leads members : List Action) (a : Action)
      → leads_of is_marked members ≡ leads
      → Has a (group_intended is_marked leads members)
      → Beside members a
  unfolding group_intended
  group_intended-Beside [] members a e m = absurd m
  group_intended-Beside (l ∷ leads) members a e m =
      let (has, apart) = without-Has (l ∷ leads) members a m in
      let first = subst (λ xs. All (Marked members) xs) e (leads_of-Marked members) in
      (
        has,
        unmarked members a has (subst (λ xs. has_id a.id xs ≡ false) (sym e) apart),
        (l, first.0),
      )

  groups_intended-Beside :
      (groups : List (ℕ × List Action)) (a : Action)
      → Has a (groups_intended is_marked groups)
      → (k : ℕ) × (members : List Action) × Has (k, members) groups × Beside members a
  unfolding groups_intended
  groups_intended-Beside [] a m = absurd m
  groups_intended-Beside ((k, members) ∷ rest) a m =
      elim (Has-split a (group_intended is_marked (leads_of is_marked members) members)
        (groups_intended is_marked rest) m) [
          | inl here ↦ (
            k,
            members,
            inl refl,
            group_intended-Beside (leads_of is_marked members) members a refl here,
          )
          | inr later ↦
              let (j, others, has, beside) = groups_intended-Beside rest a later in
              (j, others, inr has, beside)
        ]

  -- Every action that keep-suggested deletes is one of the plan without the mark of a lead, and its
  -- group has an action with the mark, which is not deleted: no group loses all its members, and a
  -- group without a lead loses none.
  pub keep_suggested-lead :
      (actions : List Action) (a : Action)
      → Has a (keep_suggested_intended is_marked actions)
      → Has a actions
        × (is_marked a.shortcut_name ≡ false)
        × ((l : Action) × Has l actions
            × (l.group_no ≡ a.group_no)
            × ¬ (Has l (keep_suggested_intended is_marked actions)))
  unfolding keep_suggested_intended
  keep_suggested-lead actions a m =
      let f : Action → ℕ = λ b. b.group_no in
      let groups = group_by same_number f actions [] in
      let (k, members, has, (mem, plain, (l, (ml, marked)))) = groups_intended-Beside groups a m in
      let keys =
        All-at (λ (g : ℕ × List Action). All (λ b. g.0 ≡ b.group_no) g.1) groups
          (group_by-Grouped same_number number-≡ number_refl f actions [] tt) has in
      let within =
        All-at (λ (g : ℕ × List Action). All (λ b. Has b actions) g.1) groups
          (group_by-Everywhere same_number number-≡ number_refl (λ b. Has b actions) f actions []
            (All-Has actions) tt)
          has in
      (
        All-at (λ b. Has b actions) members within mem,
        plain,
        (
          l,
          All-at (λ b. Has b actions) members within ml,
          sym (All-at (λ (b : Action). k ≡ b.group_no) members keys ml)
              ∙ All-at (λ (b : Action). k ≡ b.group_no) members keys mem,
          (λ deleted.
              let (_, _, _, (_, unmarked_l, _)) = groups_intended-Beside groups l deleted in
              let both = sym marked ∙ unmarked_l in cc),
        ),
      )
