-- ===== src/Dedup/Rank/Lead.antt =====
-- The lead of a group: no member comes before it.
use packrat.Prelude.{
  ltb→lt, lt→ltb, ℕ, ◌<◌, ◌≡◌, refl, sym, ap, ◌∙◌, ◌⊎◌, inl, inr, Bool, true, false, ◌&&◌, ◌||◌,
  Option, some, List, [], ◌∷◌, map, arith, All, Has, ltb, ◌==◌, Bool-cases, ==_iff,
}
use mathlib.Core.Path.{subst}
use packrat.Dedup.Rank.{
  Order, lex_lt, lex_eq, code_points, Member, RankFields, Numbers, Ranked, outranks, comes_first,
  beats, best_of, ranked, any_video, level_from, group_lead_and_level,
}

-- What the comparison of numbers obeys, where none of them is nan.
pub record IsOrder {K : Type 0} (o : Order K) : Type 0 where
  pub lt_irrefl : (x : K) → o.lt x x ≡ false
  pub lt_trans : (x y z : K) → o.lt x y ≡ true → o.lt y z ≡ true → o.lt x z ≡ true
  pub eq_refl : (x : K) → o.eq x x ≡ true
  pub eq_same : (x y : K) → o.eq x y ≡ true → x ≡ y

pub code_points-IsOrder : IsOrder code_points
code_points-IsOrder = record {
  lt_irrefl = λ x. ground arith;
  lt_trans = λ x y z h k. ground arith;
  eq_refl = λ x. ground arith;
  eq_same = λ x y h. (==_iff x y).0 h;
}

module _ {K : Type 0} (o : Order K) (laws : IsOrder o) where
  pub lex_eq-≡ : (xs ys : List K) → lex_eq o xs ys ≡ true → xs ≡ ys
  unfolding lex_eq
  lex_eq-≡ [] [] h = refl
  lex_eq-≡ [] (y ∷ ys) h = cc
  lex_eq-≡ (x ∷ xs) [] h = cc
  lex_eq-≡ (x ∷ xs) (y ∷ ys) h =
      let first : x ≡ y = laws.eq_same x y (ground arith) in
      let rest : xs ≡ ys = lex_eq-≡ xs ys (ground arith) in cc

  pub lex_eq_refl : (xs : List K) → lex_eq o xs xs ≡ true
  unfolding lex_eq
  lex_eq_refl [] = refl
  lex_eq_refl (x ∷ xs) = rw (laws.eq_refl x, lex_eq_refl xs) refl

  pub lex_lt_irrefl : (xs : List K) → lex_lt o xs xs ≡ false
  unfolding lex_lt
  lex_lt_irrefl [] = refl
  lex_lt_irrefl (x ∷ xs) = rw (laws.eq_refl x) (lex_lt_irrefl xs)

  apart_of : (x y z : K) → o.lt x y ≡ true → o.lt y z ≡ true → o.eq x z ≡ false
  apart_of x y z h k = elim (Bool-cases (o.eq x z)) [
    | inr apart ↦ apart
    | inl same ↦
        let back : o.lt y x ≡ true = ap (o.lt y) (laws.eq_same x z same) ∙ k in
        let loop : o.lt x x ≡ true = laws.lt_trans x y x h back in
        let never : o.lt x x ≡ false = laws.lt_irrefl x in cc
  ]

  pub lex_lt_trans :
      (xs ys zs : List K) → lex_lt o xs ys ≡ true → lex_lt o ys zs ≡ true → lex_lt o xs zs ≡ true
  unfolding lex_lt
  lex_lt_trans [] [] zs = λ h k. cc
  lex_lt_trans [] (y ∷ ys) [] = λ h k. cc
  lex_lt_trans [] (y ∷ ys) (z ∷ zs) = λ h k. refl
  lex_lt_trans (x ∷ xs) [] zs = λ h k. cc
  lex_lt_trans (x ∷ xs) (y ∷ ys) [] = λ h k. cc
  lex_lt_trans (x ∷ xs) (y ∷ ys) (z ∷ zs) = elim (Bool-cases (o.eq x y)) [
    | inl xy ↦ elim (Bool-cases (o.eq y z)) [
      | inl yz ↦
          let xz : o.eq x z ≡ true = ap (o.eq x) (sym (laws.eq_same y z yz)) ∙ xy in
          rw (xy, yz, xz) (lex_lt_trans xs ys zs)
      | inr yz ↦
          let xz : o.eq x z ≡ false = ap (λ u. o.eq u z) (laws.eq_same x y xy) ∙ yz in
          rw (xy, yz, xz) (λ h k. ap (λ u. o.lt u z) (laws.eq_same x y xy) ∙ k)
    ]
    | inr xy ↦ elim (Bool-cases (o.eq y z)) [
      | inl yz ↦
          let xz : o.eq x z ≡ false = ap (o.eq x) (sym (laws.eq_same y z yz)) ∙ xy in
          rw (xy, yz, xz) (λ h k. ap (o.lt x) (sym (laws.eq_same y z yz)) ∙ h)
      | inr yz ↦ rw (xy, yz) (λ h k. rw (apart_of x y z h k) (laws.lt_trans x y z h k))
    ]
  ]

or_and : (p q r : Bool) → (p || (q && r)) ≡ true → (p ≡ true) ⊎ ((q ≡ true) × (r ≡ true))
or_and true q r h = inl refl
or_and false true r h = inr (refl, h)
or_and false false r h = cc

or_false : (b : Bool) → (b || false) ≡ true → b ≡ true
or_false true h = refl
or_false false h = h

true_apart : true ≡ false → ⊥
true_apart e = cc

module _ {K : Type 0} (num : Numbers K) (laws : IsOrder num.order) where
  -- What it takes to come before: a greater key, or with the same key a greater preference, or with
  -- both the same an earlier path.
  abbrev pub Before : Ranked K → Ranked K → Type 0
  Before c b =
      (lex_lt num.order b.key c.key ≡ true)
      ⊎ ((c.key ≡ b.key) × (b.pref < c.pref))
      ⊎ ((c.key ≡ b.key)
          × (c.pref ≡ b.pref)
          × (lex_lt code_points (num.normcase c.member.path) (num.normcase b.member.path) ≡ true))

  beats-Before : (c b : Ranked K) → beats num c b ≡ true → Before c b
  unfolding beats outranks comes_first
  beats-Before c b = elim (Bool-cases (lex_eq num.order c.key b.key)) [
    | inl same ↦
        let key : c.key ≡ b.key = lex_eq-≡ num.order laws c.key b.key same in
        rw same (λ h. elim (or_and (ltb b.pref c.pref) (c.pref == b.pref) (comes_first num c b) h) [
          | inl more ↦ inr (inl (key, ltb→lt b.pref c.pref more))
          | inr (level, first) ↦ inr (inr (key, (==_iff c.pref b.pref).0 level, first))
        ])
    | inr apart ↦ rw apart (λ h. inl (or_false (lex_lt num.order b.key c.key) h))
  ]

  lex_lt_apart : (xs ys : List K) → lex_lt num.order ys xs ≡ true → lex_eq num.order xs ys ≡ false
  lex_lt_apart xs ys h = elim (Bool-cases (lex_eq num.order xs ys)) [
    | inr apart ↦ apart
    | inl same ↦
        let loop : lex_lt num.order ys ys ≡ true =
          ap (lex_lt num.order ys) (sym (lex_eq-≡ num.order laws xs ys same)) ∙ h in
        let never = lex_lt_irrefl num.order laws ys in cc
  ]

  keys_equal : (xs ys : List K) → xs ≡ ys → lex_eq num.order xs ys ≡ true
  keys_equal xs ys e = ap (lex_eq num.order xs) (sym e) ∙ lex_eq_refl num.order laws xs

  Before-beats : (c b : Ranked K) → Before c b → beats num c b ≡ true
  unfolding beats outranks comes_first
  Before-beats c b (inl greater) = rw (lex_lt_apart c.key b.key greater, greater) refl
  Before-beats c b (inr (inl (key, more))) =
      rw (keys_equal c.key b.key key, lt→ltb b.pref c.pref more) refl
  Before-beats c b (inr (inr (key, level, first))) =
      let no_more : ltb b.pref c.pref ≡ false = ground arith in
      let same : (c.pref == b.pref) ≡ true = (==_iff c.pref b.pref).1 level in
      rw (keys_equal c.key b.key key, no_more, same, first) refl

  Before-trans : (a b c : Ranked K) → Before a b → Before b c → Before a c
  Before-trans a b c (inl h) (inl k) = inl (lex_lt_trans num.order laws c.key b.key a.key k h)
  Before-trans a b c (inl h) (inr (inl k)) = inl (ap (λ u. lex_lt num.order u a.key) (sym k.0) ∙ h)
  Before-trans a b c (inl h) (inr (inr k)) = inl (ap (λ u. lex_lt num.order u a.key) (sym k.0) ∙ h)
  Before-trans a b c (inr (inl h)) (inl k) = inl (ap (lex_lt num.order c.key) h.0 ∙ k)
  Before-trans a b c (inr (inr h)) (inl k) = inl (ap (lex_lt num.order c.key) h.0 ∙ k)
  Before-trans a b c (inr (inl h)) (inr (inl k)) = inr (inl (h.0 ∙ k.0, omega (arith, h.1, k.1)))
  Before-trans a b c (inr (inl h)) (inr (inr k)) = inr (inl (h.0 ∙ k.0, omega (arith, h.1, k.1)))
  Before-trans a b c (inr (inr h)) (inr (inl k)) = inr (inl (h.0 ∙ k.0, omega (arith, h.1, k.1)))
  Before-trans a b c (inr (inr h)) (inr (inr k)) = inr (
      inr (
        h.0 ∙ k.0,
        h.1 ∙ k.1,
        lex_lt_trans code_points code_points-IsOrder (num.normcase a.member.path)
            (num.normcase b.member.path) (num.normcase c.member.path) h.2 k.2,
      ))

  Before-irrefl : (b : Ranked K) → Before b b → ⊥
  Before-irrefl b (inl h) =
      let never = lex_lt_irrefl num.order laws b.key in true_apart (sym h ∙ never)
  Before-irrefl b (inr (inl h)) = omega (arith, h.1)
  Before-irrefl b (inr (inr h)) =
      true_apart
        (sym h.2 ∙ lex_lt_irrefl code_points code_points-IsOrder (num.normcase b.member.path))

  best_of_or :
      (best : Ranked K) (rest : List (Ranked K))
      → (best_of num best rest ≡ best) ⊎ Before (best_of num best rest) best
  unfolding best_of
  best_of_or best [] = inl refl
  best_of_or best (c ∷ rest) = elim (Bool-cases (beats num c best)) [
    | inl yes_beats ↦
        let before = beats-Before c best yes_beats in
        rw (yes_beats, best_of)
          (elim (best_of_or c rest) [
            | inl same ↦ inr (subst (λ u. Before u best) (sym same) before)
            | inr above ↦ inr (Before-trans (best_of num c rest) c best above before)
          ])
    | inr no_beats ↦ rw (no_beats, best_of) (best_of_or best rest)
  ]

  best_of_top :
      (best c : Ranked K) (rest : List (Ranked K))
      → Before c (best_of num best rest)
      → Before c best
  best_of_top best c rest h = elim (best_of_or best rest) [
    | inl same ↦ subst (λ u. Before c u) same h
    | inr above ↦ Before-trans c (best_of num best rest) best h above
  ]

  best_of_yes :
      (best c : Ranked K) (rest : List (Ranked K))
      → beats num c best ≡ true
      → best_of num best (c ∷ rest) ≡ best_of num c rest
  unfolding best_of
  best_of_yes best c rest e = rw (e, best_of) refl

  best_of_no :
      (best c : Ranked K) (rest : List (Ranked K))
      → beats num c best ≡ false
      → best_of num best (c ∷ rest) ≡ best_of num best rest
  unfolding best_of
  best_of_no best c rest e = rw (e, best_of) refl

  best_of-All :
      (best : Ranked K) (rest : List (Ranked K))
      → All (λ c. Before c (best_of num best rest) → ⊥) rest
  best_of-All best [] = tt
  best_of-All best (c ∷ rest) = elim (Bool-cases (beats num c best)) [
    | inl yes_beats ↦
        subst (λ u. All (λ x. Before x u → ⊥) (c ∷ rest)) (sym (best_of_yes best c rest yes_beats))
          ((λ h. Before-irrefl c (best_of_top c c rest h)), best_of-All c rest)
    | inr no_beats ↦
        subst (λ u. All (λ x. Before x u → ⊥) (c ∷ rest)) (sym (best_of_no best c rest no_beats))
          (
            (λ h. true_apart (sym (Before-beats c best (best_of_top best c rest h)) ∙ no_beats)),
            best_of-All best rest,
          )
  ]

  best_of-Has :
      (best : Ranked K) (rest : List (Ranked K)) → Has (best_of num best rest) (best ∷ rest)
  unfolding best_of
  best_of-Has best [] = inl refl
  best_of-Has best (c ∷ rest) = elim (Bool-cases (beats num c best)) [
    | inl yes_beats ↦
        subst (λ u. Has u (best ∷ c ∷ rest)) (sym (best_of_yes best c rest yes_beats))
          (inr (best_of-Has c rest))
    | inr no_beats ↦
        subst (λ u. Has u (best ∷ c ∷ rest)) (sym (best_of_no best c rest no_beats))
          (elim (best_of-Has best rest) [ inl same ↦ inl same | inr later ↦ inr (inr later) ])
  ]

  -- In a group that is not empty the lead is the asset of a member that no member comes before:
  -- none has a greater key, none with the same key a greater preference, and none with both the same
  -- an earlier path, as long as the comparison of the parts is an order.
  pub group_lead_first :
      (m : Member) (ms : List Member) (rank : ℕ → RankFields K) (root : Option ℕ) (internal : Bool)
      → let all = map (ranked num (any_video num rank (m ∷ ms)) rank root internal) (m ∷ ms) in
        (lead : Ranked K) × Has lead all
        × (group_lead_and_level num (m ∷ ms) rank root internal
            ≡ some (lead.member.asset_id, level_from num 0 lead.key lead.key all))
        × All (λ c. Before c lead → ⊥) all
  unfolding group_lead_and_level
  group_lead_first m ms rank root internal =
      let as_ranked = ranked num (any_video num rank (m ∷ ms)) rank root internal in
      let first = as_ranked m in
      let rest = map as_ranked ms in
      (
        best_of num first rest,
        best_of-Has first rest,
        refl,
        ((λ h. Before-irrefl first (best_of_top first first rest h)), best_of-All first rest),
      )
