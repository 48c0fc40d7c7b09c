-- ===== src/Dedup/Matcher/Dict.antt =====
-- The dict of the matcher: what an assignment to a pair changes, and what is kept of it.
use packrat.Prelude.{
  ℕ, ◌≤◌, ◌<◌, ◌≡◌, refl, sym, ◌∙◌, ◌⊎◌, inl, inr, true, Option, none, some, List, [], ◌∷◌, arith,
  All, Has, ltb, ◌==◌, Bool-cases, Option-cases, ==_iff, ==_false,
}
use packrat.Dedup.Matcher.{Entry, is_key, get_best, set_best, improves, keep, consider}

is_key_iff : (a b : ℕ) (e : Entry) → is_key a b e ≡ true → (e.asset_a ≡ a) × (e.asset_b ≡ b)
unfolding is_key
is_key_iff a b e h = ground arith

same_key :
    (a b : ℕ) (e : Entry) (x y : ℕ) → is_key a b e ≡ true → is_key x y e ≡ true → (x ≡ a) × (y ≡ b)
unfolding is_key
same_key a b e x y h k = ground arith

pub get_best-set_self : (a b d : ℕ) (es : List Entry) → get_best a b (set_best a b d es) ≡ some d
unfolding get_best set_best is_key
get_best-set_self a b d [] = ground arith
get_best-set_self a b d (e ∷ es) = ground (arith, get_best-set_self a b d es)

pub get_best-set_other :
    (x y a b d : ℕ) (es : List Entry)
    → ((x ≡ a) × (y ≡ b) → ⊥)
    → get_best x y (set_best a b d es) ≡ get_best x y es
unfolding get_best set_best is_key
get_best-set_other x y a b d [] other = ground arith
get_best-set_other x y a b d (e ∷ es) other = ground (arith, get_best-set_other x y a b d es other)

-- The pair has an entry, of at most the distance.
abbrev pub Within : ℕ → ℕ → ℕ → List Entry → Type 0
Within a b d best = (k : ℕ) × (get_best a b best ≡ some k) × (k ≤ d)

pub keep-Within_self : (a b d : ℕ) (best : List Entry) → Within a b d (keep a b d best)
unfolding keep improves
keep-Within_self a b d best = elim (Option-cases (get_best a b best)) [
  | inl e ↦ rw e (d, get_best-set_self a b d best, omega arith)
  | inr (k, e) ↦ elim (Bool-cases (ltb d k)) [
    | inl less ↦ rw (e, less) (d, get_best-set_self a b d best, omega arith)
    | inr more ↦ rw (e, more) (k, e, ground arith)
  ]
]

same_pair : (x y a b : ℕ) → ((x ≡ a) × (y ≡ b)) ⊎ ((x ≡ a) × (y ≡ b) → ⊥)
same_pair x y a b = elim (Bool-cases (x == a)) [
  | inl first ↦ elim (Bool-cases (y == b)) [
    | inl second ↦ inl ((==_iff x a).0 first, (==_iff y b).0 second)
    | inr second ↦ inr (λ e. ==_false y b second e.1)
  ]
  | inr first ↦ inr (λ e. ==_false x a first e.0)
]

keep-Within_same :
    (n a b d : ℕ) (best : List Entry) → Within a b n best → Within a b n (keep a b d best)
unfolding keep improves
keep-Within_same n a b d best (k, found, le) = elim (Bool-cases (ltb d k)) [
  | inl less ↦ rw (found, less) (d, get_best-set_self a b d best, ground arith)
  | inr more ↦ rw (found, more) (k, found, le)
]

keep-Within_other :
    (x y n a b d : ℕ) (best : List Entry)
    → ((x ≡ a) × (y ≡ b) → ⊥)
    → Within x y n best
    → Within x y n (keep a b d best)
unfolding keep
keep-Within_other x y n a b d best other (k, found, le) =
    elim (Bool-cases (improves d (get_best a b best))) [
      | inl better ↦ rw better (k, get_best-set_other x y a b d best other ∙ found, le)
      | inr worse ↦ rw worse (k, found, le)
    ]

pub keep-Within :
    (x y n a b d : ℕ) (best : List Entry) → Within x y n best → Within x y n (keep a b d best)
keep-Within x y n a b d best h = elim (same_pair x y a b) [
  | inl (p, q) ↦
      let at_key : Within a b n best = (h.0, rw (sym p, sym q) h.1, h.2) in
      rw (p, q) (keep-Within_same n a b d best at_key)
  | inr other ↦ keep-Within_other x y n a b d best other h
]

pub consider-Within :
    (x y n a b : ℕ) (s : Option ℕ) (best : List Entry)
    → Within x y n best
    → Within x y n (consider a b s best)
unfolding consider
consider-Within x y n a b none best h = h
consider-Within x y n a b (some d) best h = elim (Bool-cases (b == a)) [
  | inl self ↦ rw self h
  | inr pair ↦ elim (Bool-cases (ltb a b)) [
    | inl up ↦ rw (pair, up) (keep-Within x y n a b d best h)
    | inr down ↦ rw (pair, down) (keep-Within x y n b a d best h)
  ]
]

module _ (P : ℕ → ℕ → ℕ → Type 0) where
  abbrev Each : Entry → Type 0
  Each e = P e.asset_a e.asset_b e.distance

  set_best-Each :
      (a b d : ℕ) (es : List Entry) → P a b d → All Each es → All Each (set_best a b d es)
  unfolding set_best
  set_best-Each a b d [] p h = (p, tt)
  set_best-Each a b d (e ∷ es) p h = elim (Bool-cases (is_key a b e)) [
    | inl here ↦ rw here (rw ((is_key_iff a b e here).0, (is_key_iff a b e here).1) p, h.1)
    | inr there ↦ rw there (h.0, set_best-Each a b d es p h.1)
  ]

  pub consider-Each :
      (x y : ℕ) (s : Option ℕ) (best : List Entry)
      → ((d : ℕ) → s ≡ some d → (x < y → P x y d) × (y < x → P y x d))
      → All Each best
      → All Each (consider x y s best)
  unfolding consider keep
  consider-Each x y none best p h = h
  consider-Each x y (some d) best p h = elim (Bool-cases (y == x)) [
    | inl self ↦ rw self h
    | inr pair ↦ elim (Bool-cases (ltb x y)) [
      | inl up ↦ elim (Bool-cases (improves d (get_best x y best))) [
        | inl better ↦
            rw (pair, up, better) (set_best-Each x y d best ((p d refl).0 (ground arith)) h)
        | inr worse ↦ rw (pair, up, worse) h
      ]
      | inr down ↦ elim (Bool-cases (improves d (get_best y x best))) [
        | inl better ↦
            rw (pair, down, better) (set_best-Each y x d best ((p d refl).1 (ground arith)) h)
        | inr worse ↦ rw (pair, down, worse) h
      ]
    ]
  ]

-- No pair has two entries.
abbrev pub Distinct : List Entry → Type 0
Distinct [] = Unit
Distinct (e ∷ es) = (get_best e.asset_a e.asset_b es ≡ none) × Distinct es

set_best-Distinct : (a b d : ℕ) (es : List Entry) → Distinct es → Distinct (set_best a b d es)
unfolding set_best
set_best-Distinct a b d [] h = (unfold get_best in refl, tt)
set_best-Distinct a b d (e ∷ es) h = elim (Bool-cases (is_key a b e)) [
  | inl here ↦ rw here h
  | inr there ↦ rw there (
    get_best-set_other e.asset_a e.asset_b a b d es (unfold is_key in ground arith) ∙ h.0,
    set_best-Distinct a b d es h.1,
  )
]

keep-Distinct : (a b d : ℕ) (best : List Entry) → Distinct best → Distinct (keep a b d best)
unfolding keep
keep-Distinct a b d best h = elim (Bool-cases (improves d (get_best a b best))) [
  | inl better ↦ rw better (set_best-Distinct a b d best h)
  | inr worse ↦ rw worse h
]

pub consider-Distinct :
    (x y : ℕ) (s : Option ℕ) (best : List Entry) → Distinct best → Distinct (consider x y s best)
unfolding consider
consider-Distinct x y none best h = h
consider-Distinct x y (some d) best h = elim (Bool-cases (y == x)) [
  | inl self ↦ rw self h
  | inr pair ↦ elim (Bool-cases (ltb x y)) [
    | inl up ↦ rw (pair, up) (keep-Distinct x y d best h)
    | inr down ↦ rw (pair, down) (keep-Distinct y x d best h)
  ]
]

pub get_best-Has :
    (a b k : ℕ) (es : List Entry)
    → get_best a b es ≡ some k
    → (e : Entry) × Has e es × (e.asset_a ≡ a) × (e.asset_b ≡ b) × (e.distance ≡ k)
unfolding get_best
get_best-Has a b k [] = λ h. cc
get_best-Has a b k (e ∷ es) = elim (Bool-cases (is_key a b e)) [
  | inl here ↦
      rw here (λ h. (e, inl refl, (is_key_iff a b e here).0, (is_key_iff a b e here).1, cc))
  | inr there ↦ rw there (λ h. let (f, m, p, q, r) = get_best-Has a b k es h in (f, inr m, p, q, r))
]
