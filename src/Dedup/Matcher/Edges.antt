-- ===== src/Dedup/Matcher/Edges.antt =====
-- From the entries of the dict to the edges that the matcher returns.
use packrat.Prelude.{ℕ, ◌≤◌, ◌≡◌, ap, ◌⊎◌, inl, inr, none, List, [], ◌∷◌, map, arith, All, Has}
use packrat.Dedup.Matcher.{Entry, Edge, MediaType, to_edge, get_best, is_key}
use packrat.Dedup.Matcher.Dict.{Distinct, Within, get_best-Has}

-- An edge between two assets, whichever of them is named first.
abbrev pub Joins : ℕ → ℕ → Edge → Type 0
Joins i j e = ((e.asset_a ≡ i) × (e.asset_b ≡ j)) ⊎ ((e.asset_a ≡ j) × (e.asset_b ≡ i))

-- No two edges join the same pair.
abbrev pub DistinctPairs : List Edge → Type 0
DistinctPairs [] = Unit
DistinctPairs (e ∷ es) =
    All (λ f. (f.asset_a ≡ e.asset_a) × (f.asset_b ≡ e.asset_b) → ⊥) es × DistinctPairs es

no_entry :
    (m : MediaType) (a b : ℕ) (es : List Entry)
    → get_best a b es ≡ none
    → All (λ (f : Edge). (f.asset_a ≡ a) × (f.asset_b ≡ b) → ⊥) (map (to_edge m) es)
unfolding get_best to_edge is_key
no_entry m a b [] h = tt
no_entry m a b (e ∷ es) h = ((λ p. ground arith), no_entry m a b es (ground arith))

pub to_edge-DistinctPairs :
    (m : MediaType) (es : List Entry) → Distinct es → DistinctPairs (map (to_edge m) es)
unfolding to_edge
to_edge-DistinctPairs m [] h = tt
to_edge-DistinctPairs m (e ∷ es) h =
    (no_entry m e.asset_a e.asset_b es h.0, to_edge-DistinctPairs m es h.1)

module _ (P : ℕ → ℕ → ℕ → Type 0) where
  pub to_edge-All :
      (m : MediaType) (es : List Entry)
      → All (λ (e : Entry). P e.asset_a e.asset_b e.distance) es
      → All (λ (e : Edge). P e.asset_a e.asset_b e.distance) (map (to_edge m) es)
  unfolding to_edge
  to_edge-All m [] h = tt
  to_edge-All m (e ∷ es) h = (h.0, to_edge-All m es h.1)

Has-to_edge :
    (m : MediaType) (e : Entry) (es : List Entry)
    → Has e es
    → Has (to_edge m e) (map (to_edge m) es)
Has-to_edge m e [] h = h
Has-to_edge m e (f ∷ es) (inl same) = inl (ap (to_edge m) same)
Has-to_edge m e (f ∷ es) (inr later) = inr (Has-to_edge m e es later)

pub Within-edge :
    (m : MediaType) (a b d : ℕ) (es : List Entry)
    → Within a b d es
    → (e : Edge) × Has e (map (to_edge m) es) × (e.asset_a ≡ a) × (e.asset_b ≡ b) × (e.distance ≤ d)
unfolding to_edge
Within-edge m a b d es (k, found, le) =
    let (e, on, at_a, at_b, is_k) = get_best-Has a b k es found in
    (to_edge m e, Has-to_edge m e es on, at_a, at_b, omega (arith, is_k, le))
