-- ===== src/Merge/Plan/Reps.antt =====
-- Which rows of a plan are copied: one for each content.
use packrat.Prelude.{
  ℕ, ◌≡◌, refl, sym, ap, ◌∙◌, ◌≢◌, ◌⊎◌, inl, inr, true, Option, none, some, List, [], ◌∷◌, arith,
  Has, Bool-cases, ==_iff,
}
use packrat.Merge.Disk.{same_path}
use packrat.Paths.{same_path-≡, same_path_refl}
use packrat.Merge.Copy.{Item, Asset, dup_in_source}
use packrat.Merge.Plan.{
  has_hash, first_of, earlier, rep_of, classify_hash, is_rep, classify_as, classify_items,
}

first_of_cases : (it : Item) (o : Option Item) → (first_of it o ≡ it) ⊎ (o ≡ some (first_of it o))
unfolding first_of
first_of_cases it none = inl refl
first_of_cases it (some best) = elim (Bool-cases (earlier best it)) [
  | inl yes_earlier ↦ rw yes_earlier (inr refl)
  | inr no_earlier ↦ rw no_earlier (inl refl)
]

has_hash_self : (h : ℕ) (o : Option ℕ) → o ≡ some h → has_hash h o ≡ true
unfolding has_hash
has_hash_self h none e = cc
has_hash_self h (some k) e = ground arith

has_hash_only : (h : ℕ) (o : Option ℕ) → has_hash h o ≡ true → o ≡ some h
unfolding has_hash
has_hash_only h none e = cc
has_hash_only h (some k) e = ap some ((==_iff k h).0 e)

rep_of-Has :
    (h : ℕ) (items : List Item) (b : Item)
    → rep_of h items ≡ some b
    → Has b items × (b.content_hash ≡ some h)
unfolding rep_of
rep_of-Has h [] b = λ e. cc
rep_of-Has h (it ∷ rest) b = elim (Bool-cases (has_hash h it.content_hash)) [
  | inl mine ↦ rw mine (λ e. elim (first_of_cases it (rep_of h rest)) [
    | inl same ↦ let is_it : b ≡ it = cc in (inl is_it, has_hash_only h _ (rw is_it mine))
    | inr later ↦
        let found : rep_of h rest ≡ some b = later ∙ e in
        let below = rep_of-Has h rest b found in (inr below.0, below.1)
  ])
  | inr other ↦ rw other (λ e. let below = rep_of-Has h rest b e in (inr below.0, below.1))
]

rep_of-some :
    (h : ℕ) (items : List Item) (it : Item)
    → Has it items
    → it.content_hash ≡ some h
    → (b : Item) × (rep_of h items ≡ some b)
unfolding rep_of
rep_of-some h [] it = λ m e. absurd m
rep_of-some h (j ∷ rest) it = λ m e. elim m [
  | inl same ↦
      let mine : has_hash h j.content_hash ≡ true =
        has_hash_self h j.content_hash (ap (λ (i : Item). i.content_hash) (sym same) ∙ e) in
      rw (mine, rep_of) (first_of j (rep_of h rest), refl)
  | inr later ↦ elim (Bool-cases (has_hash h j.content_hash)) [
    | inl mine ↦ rw (mine, rep_of) (first_of j (rep_of h rest), refl)
    | inr other ↦ rw (other, rep_of) (rep_of-some h rest it later e)
  ]
]

module _ (assets : List Asset) (plan : List Item) where
  classify_items-to :
      (it : Item) (items : List Item)
      → Has it items
      → Has (classify_as assets plan it.content_hash it) (classify_items assets plan items)
  unfolding classify_items
  classify_items-to it [] m = m
  classify_items-to it (j ∷ items) (inl same) =
      inl (ap (λ (i : Item). classify_as assets plan i.content_hash i) same)
  classify_items-to it (j ∷ items) (inr later) = inr (classify_items-to it items later)

  classify_items-from :
      (x : Item) (items : List Item)
      → Has x (classify_items assets plan items)
      → (it : Item) × Has it items × (x ≡ classify_as assets plan it.content_hash it)
  unfolding classify_items
  classify_items-from x [] m = absurd m
  classify_items-from x (j ∷ items) (inl same) = (j, inl refl, same)
  classify_items-from x (j ∷ items) (inr later) =
      let (it, on, e) = classify_items-from x items later in (it, inr on, e)

  classify_as-hash :
      (o : Option ℕ) (it : Item) → (classify_as assets plan o it).content_hash ≡ it.content_hash
  unfolding classify_as
  classify_as-hash none it = refl
  classify_as-hash (some h) it = elim (Bool-cases (is_rep it.rel (rep_of h plan))) [
    | inl first ↦ rw first refl
    | inr dup ↦ rw dup refl
  ]

  classify_as-rel : (o : Option ℕ) (it : Item) → (classify_as assets plan o it).rel ≡ it.rel
  unfolding classify_as
  classify_as-rel none it = refl
  classify_as-rel (some h) it = elim (Bool-cases (is_rep it.rel (rep_of h plan))) [
    | inl first ↦ rw first refl
    | inr dup ↦ rw dup refl
  ]

  classify_as-rep :
      (h : ℕ) (b : Item)
      → rep_of h plan ≡ some b
      → (classify_as assets plan (some h) b).classification ≡ some (classify_hash assets h)
  unfolding classify_as is_rep
  classify_as-rep h b found = rw (found, same_path_refl b.rel) refl

  classify_as-only :
      (h : ℕ) (it b : Item)
      → rep_of h plan ≡ some b
      → (classify_as assets plan (some h) it).classification ≢ some dup_in_source
      → (classify_as assets plan (some h) it).rel ≡ b.rel
  unfolding classify_as is_rep
  classify_as-only h it b found = elim (Bool-cases (same_path b.rel it.rel)) [
    | inl same ↦ rw (found, same) (λ not_dup. sym (same_path-≡ b.rel it.rel same))
    | inr apart ↦ rw (found, apart) (λ not_dup. absurd (not_dup refl))
  ]

  -- A row of the classified plan, but for a duplicate, has the path of the representative.
  classified_rel :
      (h : ℕ) (b x : Item)
      → rep_of h plan ≡ some b
      → Has x (classify_items assets plan plan)
      → x.content_hash ≡ some h
      → x.classification ≢ some dup_in_source
      → x.rel ≡ b.rel
  classified_rel h b x found on mine not_dup =
      let (it, there, same) = classify_items-from x plan on in
      let hash : it.content_hash ≡ some h =
        sym (classify_as-hash it.content_hash it)
        ∙ ap (λ (i : Item). i.content_hash) (sym same)
        ∙ mine in
      let at : x ≡ classify_as assets plan (some h) it =
        same ∙ ap (λ o. classify_as assets plan o it) hash in
      ap (λ (i : Item). i.rel) at
      ∙ classify_as-only h it b found (λ e. not_dup (ap (λ (i : Item). i.classification) at ∙ e))

  -- In a plan, each content that some row has is classified against the catalogue in one row, and
  -- every row with that content that is not marked as a duplicate in the source has the path of
  -- that row: whatever stands in the source, no content is copied from two paths.
  pub classify_items-one :
      (h : ℕ) (it : Item)
      → Has it plan
      → it.content_hash ≡ some h
      → (r : Item) × Has r (classify_items assets plan plan)
        × (r.content_hash ≡ some h)
        × (r.classification ≡ some (classify_hash assets h))
        × ((x : Item)
            → Has x (classify_items assets plan plan)
            → x.content_hash ≡ some h
            → x.classification ≢ some dup_in_source
            → x.rel ≡ r.rel)
  classify_items-one h it on mine =
      let (b, found) = rep_of-some h plan it on mine in
      let (listed, hash) = rep_of-Has h plan b found in
      (
        classify_as assets plan b.content_hash b,
        classify_items-to b plan listed,
        classify_as-hash b.content_hash b ∙ hash,
        ap (λ o. (classify_as assets plan o b).classification) hash ∙ classify_as-rep h b found,
        (λ x on_plan x_hash not_dup.
            classified_rel h b x found on_plan x_hash not_dup
            ∙ sym (classify_as-rel b.content_hash b)),
      )
