-- ===== src/Dedup/Matcher/Loops.antt =====
-- The two nested loops over targets and pool, for any score: which pairs they report.
use packrat.Prelude.{
  ℕ, ◌<◌, ◌≡◌, refl, sym, ap, ◌∙◌, ◌⊎◌, inl, inr, true, false, Option, some, List, [], ◌∷◌, arith,
  All, Has, ltb, ◌==◌,
}
use packrat.Dedup.Matcher.{Entry, consider}
use packrat.Dedup.Matcher.Dict.{
  Within, keep-Within_self, consider-Within, consider-Each, Distinct, consider-Distinct,
}

module _ {T : Type 0} (id : T → ℕ) (s : T → T → Option ℕ) where
  unfoldable pub fold_pool : T → List T → List Entry → List Entry
  fold_pool x [] best = best
  fold_pool x (y ∷ ys) best = fold_pool x ys (consider (id x) (id y) (s x y) best)

  unfoldable pub fold_targets : List T → List T → List Entry → List Entry
  fold_targets [] pool best = best
  fold_targets (x ∷ xs) pool best = fold_targets xs pool (fold_pool x pool best)

  -- A target and a member of the pool that score this distance.
  abbrev pub Scored : List T → List T → ℕ → ℕ → ℕ → Type 0
  Scored targets pool a b d =
      (a < b)
      × ((x : T) × (y : T) × Has x targets
          × Has y pool
          × (s x y ≡ some d)
          × (((id x ≡ a) × (id y ≡ b)) ⊎ ((id y ≡ a) × (id x ≡ b))))

  module _ (targets pool : List T) where
    abbrev Each : Entry → Type 0
    Each e = Scored targets pool e.asset_a e.asset_b e.distance

    fold_pool-Each :
        (x : T) (ys : List T) (best : List Entry)
        → Has x targets
        → ((y : T) → Has y ys → Has y pool)
        → All Each best
        → All Each (fold_pool x ys best)
    unfolding fold_pool
    fold_pool-Each x [] best on within h = h
    fold_pool-Each x (y ∷ ys) best on within h =
        fold_pool-Each x ys _ on (λ z m. within z (inr m))
          (consider-Each (Scored targets pool) (id x) (id y) (s x y) best
            (λ d e. (
              (λ lt. (lt, (x, y, on, within y (inl refl), e, inl (refl, refl)))),
              (λ lt. (lt, (x, y, on, within y (inl refl), e, inr (refl, refl)))),
            ))
            h)

    pub fold_targets-Each :
        (xs : List T) (best : List Entry)
        → ((x : T) → Has x xs → Has x targets)
        → All Each best
        → All Each (fold_targets xs pool best)
    unfolding fold_targets
    fold_targets-Each [] best within h = h
    fold_targets-Each (x ∷ xs) best within h =
        fold_targets-Each xs _ (λ z m. within z (inr m))
          (fold_pool-Each x pool best (within x (inl refl)) (λ z m. m) h)

  fold_pool-Distinct :
      (x : T) (ys : List T) (best : List Entry) → Distinct best → Distinct (fold_pool x ys best)
  unfolding fold_pool
  fold_pool-Distinct x [] best h = h
  fold_pool-Distinct x (y ∷ ys) best h =
      fold_pool-Distinct x ys _ (consider-Distinct (id x) (id y) (s x y) best h)

  pub fold_targets-Distinct :
      (xs pool : List T) (best : List Entry) → Distinct best → Distinct (fold_targets xs pool best)
  unfolding fold_targets
  fold_targets-Distinct [] pool best h = h
  fold_targets-Distinct (x ∷ xs) pool best h =
      fold_targets-Distinct xs pool _ (fold_pool-Distinct x pool best h)

  fold_pool-Within :
      (a b d : ℕ) (x : T) (ys : List T) (best : List Entry)
      → Within a b d best
      → Within a b d (fold_pool x ys best)
  unfolding fold_pool
  fold_pool-Within a b d x [] best h = h
  fold_pool-Within a b d x (y ∷ ys) best h =
      fold_pool-Within a b d x ys _ (consider-Within a b d (id x) (id y) (s x y) best h)

  fold_targets-Within :
      (a b d : ℕ) (xs pool : List T) (best : List Entry)
      → Within a b d best
      → Within a b d (fold_targets xs pool best)
  unfolding fold_targets
  fold_targets-Within a b d [] pool best h = h
  fold_targets-Within a b d (x ∷ xs) pool best h =
      fold_targets-Within a b d xs pool _ (fold_pool-Within a b d x pool best h)

  -- The pair of two ids, the smaller one first, has an entry of at most the distance.
  abbrev pub Reported : ℕ → ℕ → ℕ → List Entry → Type 0
  Reported a b d best = (a < b → Within a b d best) × (b < a → Within b a d best)

  consider-Reported : (a b d : ℕ) (best : List Entry) → Reported a b d (consider a b (some d) best)
  unfolding consider
  consider-Reported a b d best =
      let up : a < b → ltb a b ≡ true = λ lt. ground arith in
      let down : b < a → ltb a b ≡ false = λ lt. ground arith in
      let apart : (a < b) ⊎ (b < a) → (b == a) ≡ false = λ lt. ground arith in
      (
        (λ lt. rw (apart (inl lt), up lt) (keep-Within_self a b d best)),
        (λ lt. rw (apart (inr lt), down lt) (keep-Within_self b a d best)),
      )

  fold_pool-Reported :
      (d : ℕ) (x y : T) (ys : List T) (best : List Entry)
      → Has y ys
      → s x y ≡ some d
      → Reported (id x) (id y) d (fold_pool x ys best)
  unfolding fold_pool
  fold_pool-Reported d x y [] best = λ m e. absurd m
  fold_pool-Reported d x y (z ∷ ys) best = λ m e. elim m [
    | inl same ↦
        let now : Reported (id x) (id z) d (consider (id x) (id z) (s x z) best) =
          rw (ap (s x) (sym same) ∙ e) (consider-Reported (id x) (id z) d best) in
        rw same (
          (λ lt. fold_pool-Within (id x) (id z) d x ys _ (now.0 lt)),
          (λ lt. fold_pool-Within (id z) (id x) d x ys _ (now.1 lt)),
        )
    | inr later ↦ fold_pool-Reported d x y ys _ later e
  ]

  pub fold_targets-Reported :
      (d : ℕ) (x y : T) (xs pool : List T) (best : List Entry)
      → Has x xs
      → Has y pool
      → s x y ≡ some d
      → Reported (id x) (id y) d (fold_targets xs pool best)
  unfolding fold_targets
  fold_targets-Reported d x y [] pool best = λ m in_pool e. absurd m
  fold_targets-Reported d x y (z ∷ xs) pool best = λ m in_pool e. elim m [
    | inl same ↦
        let now : Reported (id x) (id y) d (fold_pool x pool best) =
          fold_pool-Reported d x y pool best in_pool e in
        rw (sym same) (
          (λ lt. fold_targets-Within (id x) (id y) d xs pool _ (now.0 lt)),
          (λ lt. fold_targets-Within (id y) (id x) d xs pool _ (now.1 lt)),
        )
    | inr later ↦ fold_targets-Reported d x y xs pool _ later in_pool e
  ]
