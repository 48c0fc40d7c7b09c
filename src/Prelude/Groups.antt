-- ===== src/Prelude/Groups.antt =====
-- Lists grouped by a key, as a dict of lists does it, in the order in which the keys are first met:
-- each group holds the members with one key, all of them.
use packrat.Prelude.{
  ◌≡◌, refl, sym, ◌∙◌, ◌≢◌, ◌⊎◌, inl, inr, Bool, true, false, List, [], ◌∷◌, ◌++◌, All, All-imp,
  All-snoc, All-at, Has, if◌then◌else◌, Bool-cases,
}
use mathlib.Core.Path.{subst}

module _ {K : Type 0} (same : K → K → Bool) where
  unfoldable pub append_at : {A : Type 0} → K → A → List (K × List A) → List (K × List A)
  append_at k a [] = (k, a ∷ []) ∷ []
  append_at k a ((j, members) ∷ rest) =
      if same j k then (j, members ++ a ∷ []) ∷ rest else (j, members) ∷ append_at k a rest

  -- The members with a key, none when the key is missing.
  unfoldable pub members_of : {A : Type 0} → K → List (K × List A) → List A
  members_of k [] = []
  members_of k ((j, members) ∷ rest) = if same j k then members else members_of k rest

  unfoldable pub group_by : {A : Type 0} → (A → K) → List A → List (K × List A) → List (K × List A)
  group_by f [] groups = groups
  group_by f (a ∷ rest) groups = group_by f rest (append_at (f a) a groups)

module _ {K : Type 0} (same : K → K → Bool) (same-≡ : (j k : K) → same j k ≡ true → j ≡ k)
    (same_refl : (k : K) → same k k ≡ true) where
  pub same_apart : (j k : K) → same j k ≡ false → j ≢ k
  same_apart j k h e =
      let holds : same j k ≡ true = subst (λ c. same j c ≡ true) e (same_refl j) in cc

  module _ {A : Type 0} where
    abbrev pub Fresh : K → List (K × List A) → Type 0
    Fresh k groups = All (λ g. same k g.0 ≡ false) groups

    abbrev pub Apart : List (K × List A) → Type 0
    Apart [] = Unit
    Apart (g ∷ rest) = Fresh g.0 rest × Apart rest

    Fresh-append_at :
        (j k : K) (a : A) (groups : List (K × List A))
        → same j k ≡ false
        → Fresh j groups
        → Fresh j (append_at same k a groups)
    unfolding append_at
    Fresh-append_at j k a [] h fresh = (h, tt)
    Fresh-append_at j k a ((i, members) ∷ rest) h fresh = elim (Bool-cases (same i k)) [
      | inl here ↦ rw here fresh
      | inr later ↦ rw later (fresh.0, Fresh-append_at j k a rest h fresh.1)
    ]

    Apart-append_at :
        (k : K) (a : A) (groups : List (K × List A))
        → Apart groups
        → Apart (append_at same k a groups)
    unfolding append_at
    Apart-append_at k a [] apart = (tt, tt)
    Apart-append_at k a ((i, members) ∷ rest) apart = elim (Bool-cases (same i k)) [
      | inl here ↦ rw here apart
      | inr later ↦
          rw later (Fresh-append_at i k a rest later apart.0, Apart-append_at k a rest apart.1)
    ]

    Has-snoc : (a : A) (xs : List A) → Has a (xs ++ a ∷ [])
    Has-snoc a [] = inl refl
    Has-snoc a (x ∷ xs) = inr (Has-snoc a xs)

    Has-append : (a : A) (xs ys : List A) → Has a xs → Has a (xs ++ ys)
    Has-append a [] ys m = absurd m
    Has-append a (x ∷ xs) ys (inl e) = inl e
    Has-append a (x ∷ xs) ys (inr m) = inr (Has-append a xs ys m)

    append_at-there :
        (k : K) (a : A) (groups : List (K × List A))
        → Has a (members_of same k (append_at same k a groups))
    unfolding append_at members_of
    append_at-there k a [] = rw (same_refl k) (inl refl)
    append_at-there k a ((i, members) ∷ rest) = elim (Bool-cases (same i k)) [
      | inl here ↦ rw (here, members_of, here) (Has-snoc a members)
      | inr later ↦ rw (later, members_of, later) (append_at-there k a rest)
    ]

    pub members_of_here :
        (j i : K) (members : List A) (rest : List (K × List A))
        → same i j ≡ true
        → members_of same j ((i, members) ∷ rest) ≡ members
    unfolding members_of
    members_of_here j i members rest h = rw h refl

    pub members_of_later :
        (j i : K) (members : List A) (rest : List (K × List A))
        → same i j ≡ false
        → members_of same j ((i, members) ∷ rest) ≡ members_of same j rest
    unfolding members_of
    members_of_later j i members rest h = rw h refl

    kept_head :
        (j k : K) (a b : A) (i : K) (members : List A) (rest : List (K × List A))
        → Has b (members_of same j ((i, members) ∷ rest))
        → (same i j ≡ true) ⊎ (same i j ≡ false)
        → (same i k ≡ true) ⊎ (same i k ≡ false)
        → (Has b (members_of same j rest) → Has b (members_of same j (append_at same k a rest)))
        → Has b (members_of same j (append_at same k a ((i, members) ∷ rest)))
    unfolding append_at
    kept_head j k a b i members rest m (inl mine) (inl here) below = rw here (
        subst (λ l. Has b l) (sym (members_of_here j i (members ++ a ∷ []) rest mine))
          (Has-append b members (a ∷ [])
            (subst (λ l. Has b l) (members_of_here j i members rest mine) m)))
    kept_head j k a b i members rest m (inl mine) (inr later) below = rw later (
        subst (λ l. Has b l)
          (members_of_here j i members rest mine
            ∙ sym (members_of_here j i members (append_at same k a rest) mine))
          m)
    kept_head j k a b i members rest m (inr other) (inl here) below = rw here (
        subst (λ l. Has b l)
          (members_of_later j i members rest other
            ∙ sym (members_of_later j i (members ++ a ∷ []) rest other))
          m)
    kept_head j k a b i members rest m (inr other) (inr later) below = rw later (
        subst (λ l. Has b l) (sym (members_of_later j i members (append_at same k a rest) other))
          (below (subst (λ l. Has b l) (members_of_later j i members rest other) m)))

    append_at-kept :
        (j k : K) (a b : A) (groups : List (K × List A))
        → Has b (members_of same j groups)
        → Has b (members_of same j (append_at same k a groups))
    unfolding members_of
    append_at-kept j k a b [] m = absurd m
    append_at-kept j k a b ((i, members) ∷ rest) m =
        kept_head j k a b i members rest m (Bool-cases (same i j)) (Bool-cases (same i k))
          (append_at-kept j k a b rest)

    pub members_of-at :
        (k : K) (members : List A) (groups : List (K × List A))
        → Apart groups
        → Has (k, members) groups
        → members_of same k groups ≡ members
    unfolding members_of
    members_of-at k members [] apart m = absurd m
    members_of-at k members (g ∷ rest) apart (inl e) =
        subst (λ h. members_of same k (h ∷ rest) ≡ members) e (rw (same_refl k) refl)
    members_of-at k members (g ∷ rest) apart (inr m) =
        rw (All-at (λ h. same g.0 h.0 ≡ false) rest apart.0 m)
          (members_of-at k members rest apart.1 m)

  module _ {A : Type 0} (f : A → K) where
    -- Each member stands in the group of its own bucket.
    abbrev pub Grouped : List (K × List A) → Type 0
    Grouped groups = All (λ g. All (λ a. g.0 ≡ f a) g.1) groups

    Grouped-append_at :
        (a : A) (groups : List (K × List A))
        → Grouped groups
        → Grouped (append_at same (f a) a groups)
    unfolding append_at
    Grouped-append_at a [] grouped = ((refl, tt), tt)
    Grouped-append_at a ((i, members) ∷ rest) grouped = elim (Bool-cases (same i (f a))) [
      | inl here ↦
          rw here (All-snoc (λ b. i ≡ f b) members a grouped.0 (same-≡ i (f a) here), grouped.1)
      | inr later ↦ rw later (grouped.0, Grouped-append_at a rest grouped.1)
    ]

    pub Grouped-members_of :
        (k : K) (groups : List (K × List A))
        → Grouped groups
        → All (λ a. k ≡ f a) (members_of same k groups)
    unfolding members_of
    Grouped-members_of k [] grouped = tt
    Grouped-members_of k ((i, members) ∷ rest) grouped = elim (Bool-cases (same i k)) [
      | inl here ↦ rw here (All-imp members (λ a e. sym (same-≡ i k here) ∙ e) grouped.0)
      | inr later ↦ rw later (Grouped-members_of k rest grouped.1)
    ]

    pub group_by-Apart :
        (xs : List A) (groups : List (K × List A))
        → Apart groups
        → Apart (group_by same f xs groups)
    unfolding group_by
    group_by-Apart [] groups apart = apart
    group_by-Apart (a ∷ xs) groups apart =
        group_by-Apart xs _ (Apart-append_at (f a) a groups apart)

    pub group_by-Grouped :
        (xs : List A) (groups : List (K × List A))
        → Grouped groups
        → Grouped (group_by same f xs groups)
    unfolding group_by
    group_by-Grouped [] groups grouped = grouped
    group_by-Grouped (a ∷ xs) groups grouped =
        group_by-Grouped xs _ (Grouped-append_at a groups grouped)

    group_by-kept :
        (xs : List A) (groups : List (K × List A)) (k : K) (b : A)
        → Has b (members_of same k groups)
        → Has b (members_of same k (group_by same f xs groups))
    unfolding group_by
    group_by-kept [] groups k b m = m
    group_by-kept (a ∷ xs) groups k b m =
        group_by-kept xs _ k b (append_at-kept k (f a) a b groups m)

    -- Nothing is left out.
    pub group_by-complete :
        (xs : List A) (groups : List (K × List A)) (a : A)
        → Has a xs
        → Has a (members_of same (f a) (group_by same f xs groups))
    unfolding group_by
    group_by-complete [] groups a m = absurd m
    group_by-complete (x ∷ xs) groups a (inl e) = group_by-kept xs _ (f a) a (
        subst (λ y. Has a (members_of same (f a) (append_at same (f y) y groups))) e
          (append_at-there (f a) a groups))
    group_by-complete (x ∷ xs) groups a (inr m) = group_by-complete xs _ a m

  module _ {A : Type 0} (P : A → Type 0) where
    abbrev pub Everywhere : List (K × List A) → Type 0
    Everywhere groups = All (λ g. All P g.1) groups

    Everywhere-append_at :
        (k : K) (a : A) (groups : List (K × List A))
        → P a
        → Everywhere groups
        → Everywhere (append_at same k a groups)
    unfolding append_at
    Everywhere-append_at k a [] p h = ((p, tt), tt)
    Everywhere-append_at k a ((i, members) ∷ rest) p h = elim (Bool-cases (same i k)) [
      | inl here ↦ rw here (All-snoc P members a h.0 p, h.1)
      | inr later ↦ rw later (h.0, Everywhere-append_at k a rest p h.1)
    ]

    pub group_by-Everywhere :
        (f : A → K) (xs : List A) (groups : List (K × List A))
        → All P xs
        → Everywhere groups
        → Everywhere (group_by same f xs groups)
    unfolding group_by
    group_by-Everywhere f [] groups p h = h
    group_by-Everywhere f (a ∷ xs) groups p h =
        group_by-Everywhere f xs _ p.1 (Everywhere-append_at (f a) a groups p.0 h)

    Everywhere-members_of :
        (k : K) (groups : List (K × List A)) → Everywhere groups → All P (members_of same k groups)
    unfolding members_of
    Everywhere-members_of k [] h = tt
    Everywhere-members_of k ((i, members) ∷ rest) h = elim (Bool-cases (same i k)) [
      | inl here ↦ rw here h.0
      | inr later ↦ rw later (Everywhere-members_of k rest h.1)
    ]

    pub members_of-All :
        (f : A → K) (xs : List A) (k : K)
        → All P xs
        → All P (members_of same k (group_by same f xs []))
    members_of-All f xs k p = Everywhere-members_of k _ (group_by-Everywhere f xs [] p tt)
