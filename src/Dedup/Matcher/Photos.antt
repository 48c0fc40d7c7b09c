-- ===== src/Dedup/Matcher/Photos.antt =====
-- Which edges match_photos returns.
use packrat.Prelude.{
  ℕ, ◌≤◌, ◌<◌, ◌≡◌, refl, sym, ap, ◌∙◌, ◌≢◌, ◌⊎◌, inl, inr, some, List, [], ◌∷◌, arith, length, All,
  All-imp, Has, Option-cases,
}
use packrat.Dedup.Matcher.{
  PhotoSig, PdqRow, Bytes, Edge, Entry, photo, hamming, hit, to_row, valid_rows, photo_pool,
  photo_targets, match_photos, pdq_bytes,
}
use packrat.Dedup.Matcher.Loops.{
  fold_pool, fold_targets, Scored, fold_targets-Each, fold_targets-Distinct, fold_targets-Reported,
}
use packrat.Dedup.Matcher.Edges.{
  Joins, DistinctPairs, to_edge-DistinctPairs, to_edge-All, Within-edge,
}

abbrev row_id : PdqRow → ℕ
row_id r = r.asset_id

photo_pool-fold :
    (t : ℕ) (x : PdqRow) (ys : List PdqRow) (best : List Entry)
    → photo_pool t x ys best ≡ fold_pool row_id (hit t) x ys best
unfolding photo_pool fold_pool
photo_pool-fold t x [] best = refl
photo_pool-fold t x (y ∷ ys) best = photo_pool-fold t x ys _

photo_targets-fold :
    (t : ℕ) (xs pool : List PdqRow) (best : List Entry)
    → photo_targets t xs pool best ≡ fold_targets row_id (hit t) xs pool best
unfolding photo_targets fold_targets
photo_targets-fold t [] pool best = refl
photo_targets-fold t (x ∷ xs) pool best =
    ap (photo_targets t xs pool) (photo_pool-fold t x pool best) ∙ photo_targets-fold t xs pool _

-- A photo with a signature of 32 bytes.
abbrev pub Signed : PhotoSig → Bytes → Type 0
Signed p b = (p.bits ≡ some b) × (length b ≡ pdq_bytes)

to_row-some :
    (p : PhotoSig) (r : PdqRow) → to_row p ≡ some r → (p.asset_id ≡ r.asset_id) × Signed p r.bits
unfolding to_row
to_row-some p r = ground arith

to_row-Signed :
    (p : PhotoSig) (b : Bytes)
    → Signed p b
    → to_row p ≡ some (record { asset_id = p.asset_id; bits = b })
unfolding to_row
to_row-Signed p b h = ground arith

valid_rows-from :
    (ps : List PhotoSig) (r : PdqRow)
    → Has r (valid_rows ps)
    → (p : PhotoSig) × Has p ps × (p.asset_id ≡ r.asset_id) × Signed p r.bits
unfolding valid_rows
valid_rows-from [] r = λ m. absurd m
valid_rows-from (p ∷ ps) r = elim (Option-cases (to_row p)) [
  | inl dropped ↦
      rw (dropped, valid_rows)
        (λ m. let (q, on, same, bits) = valid_rows-from ps r m in (q, inr on, same, bits))
  | inr (k, kept) ↦
      rw (kept, valid_rows)
        (λ m. elim m [
          | inl same ↦
              let row = to_row-some p r (kept ∙ ap some (sym same)) in (p, inl refl, row.0, row.1)
          | inr later ↦
              let (q, on, same, bits) = valid_rows-from ps r later in (q, inr on, same, bits)
        ])
]

valid_rows-to :
    (ps : List PhotoSig) (p : PhotoSig) (b : Bytes)
    → Has p ps
    → Signed p b
    → Has (record { asset_id = p.asset_id; bits = b }) (valid_rows ps)
unfolding valid_rows
valid_rows-to [] p b = λ m h. absurd m
valid_rows-to (q ∷ ps) p b = λ m h. elim m [
  | inl same ↦ rw (ap to_row (sym same) ∙ to_row-Signed p b h, valid_rows) (inl refl)
  | inr later ↦ elim (Option-cases (to_row q)) [
    | inl dropped ↦ rw (dropped, valid_rows) (valid_rows-to ps p b later h)
    | inr (k, kept) ↦ rw (kept, valid_rows) (inr (valid_rows-to ps p b later h))
  ]
]

abbrev pub PhotoPair : List PhotoSig → List PhotoSig → ℕ → ℕ → ℕ → ℕ → Type 0
PhotoPair targets pool t a b d =
    (a < b)
    × (d ≤ t)
    × ((x : PhotoSig) × (y : PhotoSig) × (c : Bytes) × (e : Bytes) × Has x targets
        × Has y pool
        × Signed x c
        × Signed y e
        × (hamming e c ≡ d)
        × (((x.asset_id ≡ a) × (y.asset_id ≡ b)) ⊎ ((y.asset_id ≡ a) × (x.asset_id ≡ b))))

hit-some :
    (t : ℕ) (x y : PdqRow) (d : ℕ) → hit t x y ≡ some d → (hamming y.bits x.bits ≡ d) × (d ≤ t)
unfolding hit
hit-some t x y d h = ground arith

Scored-PhotoPair :
    (targets pool : List PhotoSig) (t a b d : ℕ)
    → Scored row_id (hit t) (valid_rows targets) (valid_rows pool) a b d
    → PhotoPair targets pool t a b d
Scored-PhotoPair targets pool t a b d (lt, (x, y, on, in_pool, e, ids)) =
    let (p, p_on, p_id, p_bits) = valid_rows-from targets x on in
    let (q, q_on, q_id, q_bits) = valid_rows-from pool y in_pool in
    let (same, le) = hit-some t x y d e in
    (
      lt,
      le,
      (
        p,
        q,
        x.bits,
        y.bits,
        p_on,
        q_on,
        p_bits,
        q_bits,
        same,
        elim ids [ inl (i, j) ↦ inl (p_id ∙ i, q_id ∙ j) | inr (i, j) ↦ inr (q_id ∙ i, p_id ∙ j) ],
      ),
    )

-- Each edge that match_photos returns joins two assets, the smaller id first, one of a target and
-- one of the pool, whose signatures have exactly the edge's distance, which is at most the cutoff;
-- and no two edges join the same pair.
pub match_photos_sound :
    (targets pool : List PhotoSig) (t : ℕ)
    → All
        (λ e. PhotoPair targets pool t e.asset_a e.asset_b e.distance)
        (match_photos targets pool t)
      × DistinctPairs (match_photos targets pool t)
unfolding match_photos
match_photos_sound targets pool t =
    let xs = valid_rows targets in
    let ys = valid_rows pool in
    rw (photo_targets-fold t xs ys []) (
      to_edge-All (PhotoPair targets pool t) photo _ (
          All-imp _ (λ e. Scored-PhotoPair targets pool t e.asset_a e.asset_b e.distance)
            (fold_targets-Each row_id (hit t) xs ys xs [] (λ z m. m) tt)),
      to_edge-DistinctPairs photo _ (fold_targets-Distinct row_id (hit t) xs ys [] tt),
    )

lt_or_gt : (i j : ℕ) → i ≢ j → (i < j) ⊎ (j < i)
lt_or_gt i j h = ground arith

hit_within :
    (t : ℕ) (x y : PdqRow) → hamming y.bits x.bits ≤ t → hit t x y ≡ some (hamming y.bits x.bits)
unfolding hit
hit_within t x y h = ground arith

-- No pair is missed: when a target and a member of the pool
-- have signatures of 32 bytes, different assets and a distance within the cutoff, some edge joins
-- the two assets, with at most that distance.
pub match_photos_complete :
    (targets pool : List PhotoSig) (t : ℕ) (x y : PhotoSig) (c e : Bytes)
    → Has x targets
    → Has y pool
    → Signed x c
    → Signed y e
    → x.asset_id ≢ y.asset_id
    → hamming e c ≤ t
    → (edge : Edge) × Has edge (match_photos targets pool t)
      × Joins x.asset_id y.asset_id edge
      × (edge.distance ≤ hamming e c)
unfolding match_photos
match_photos_complete targets pool t x y c e on in_pool x_bits y_bits apart within =
    let xs = valid_rows targets in
    let ys = valid_rows pool in
    let reported =
      fold_targets-Reported row_id (hit t) (hamming e c) _ _ xs ys []
        (valid_rows-to targets x c on x_bits) (valid_rows-to pool y e in_pool y_bits)
        (hit_within t _ _ within) in
    rw (photo_targets-fold t xs ys []) (elim (lt_or_gt x.asset_id y.asset_id apart) [
      | inl lt ↦
          let (edge, listed, a, b, le) = Within-edge photo _ _ _ _ (reported.0 lt) in
          (edge, listed, inl (a, b), le)
      | inr lt ↦
          let (edge, listed, a, b, le) = Within-edge photo _ _ _ _ (reported.1 lt) in
          (edge, listed, inr (a, b), le)
    ])
