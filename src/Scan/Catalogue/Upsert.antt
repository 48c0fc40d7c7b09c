-- ===== src/Scan/Catalogue/Upsert.antt =====
-- Recording one file keeps the rows together: _upsert_instance.
use packrat.Prelude.{
  ℕ, ◌+◌, ◌≡◌, refl, sym, ap, ◌∙◌, ◌≢◌, ◌⊎◌, inl, inr, true, false, Option, none, some, List, [],
  ◌∷◌, arith, ◌==◌, Bool-cases,
}
use mathlib.Core.Path.{subst}
use packrat.Paths.{FilePath, same_path, same_path-≡, same_path_refl}
use packrat.Scan.Walk.{Candidate}
use packrat.Scan.Catalogue.{
  AssetRow, InstanceRow, Catalogue, at_path, find_path, has_instance, forget_if_orphaned, max_fid,
  find_hash, upsert_row, forget_previous, upsert_instance,
}
use packrat.Scan.Catalogue.Rows.{
  has_asset, Linked, OwnedBut, OnePath, Sound, SoundBut, Owned-still, find_hash-delete,
  forget_if_orphaned-Sound,
}

at_path_self :
    (root : ℕ) (p : FilePath) (i : InstanceRow)
    → i.root_id ≡ root
    → i.path ≡ p
    → at_path root p i ≡ true
unfolding at_path
at_path_self root p i e f =
    let paths : same_path i.path p ≡ true =
      subst (λ q. same_path i.path q ≡ true) f (same_path_refl i.path) in
    ground arith

at_path_fields :
    (root : ℕ) (p : FilePath) (i : InstanceRow)
    → at_path root p i ≡ true
    → (i.root_id ≡ root) × (i.path ≡ p)
unfolding at_path
at_path_fields root p i h = (ground arith, same_path-≡ i.path p (ground arith))

-- A row elsewhere is not met by a search for another row's place.
at_path_other :
    (root : ℕ) (p : FilePath) (i j : InstanceRow)
    → at_path root p i ≡ false
    → j.root_id ≡ root
    → j.path ≡ p
    → at_path i.root_id i.path j ≡ false
at_path_other root p i j other jr jp = elim (Bool-cases (at_path i.root_id i.path j)) [
  | inl same ↦
      let (er, ep) = at_path_fields i.root_id i.path j same in
      let here = at_path_self root p i (sym er ∙ jr) (sym ep ∙ jp) in cc
  | inr apart ↦ apart
]

find_path_here :
    (root : ℕ) (p : FilePath) (i : InstanceRow) (rest : List InstanceRow)
    → at_path root p i ≡ true
    → find_path root p (i ∷ rest) ≡ some i
unfolding find_path
find_path_here root p i rest e = rw e refl

find_path_later :
    (root : ℕ) (p : FilePath) (i : InstanceRow) (rest : List InstanceRow)
    → at_path root p i ≡ false
    → find_path root p (i ∷ rest) ≡ find_path root p rest
unfolding find_path
find_path_later root p i rest e = rw e refl

same_id : (j k : ℕ) → (j == k) ≡ true → j ≡ k
same_id j k h = ground arith

forget-instances : (k : ℕ) (cat : Catalogue) → (forget_if_orphaned k cat).instances ≡ cat.instances
unfolding forget_if_orphaned
forget-instances k cat = elim (Bool-cases (has_instance k cat.instances)) [
  | inl has ↦ rw has refl
  | inr bare ↦ rw bare refl
]

find_path-none :
    (root : ℕ) (p : FilePath) (i : InstanceRow) (rest : List InstanceRow)
    → find_path root p (i ∷ rest) ≡ none
    → (at_path root p i ≡ false) × (find_path root p rest ≡ none)
find_path-none root p i rest e = elim (Bool-cases (at_path root p i)) [
  | inl here ↦ let found = sym e ∙ find_path_here root p i rest here in cc
  | inr later ↦ (later, sym (find_path_later root p i rest later) ∙ e)
]

has_instance_here :
    (k : ℕ) (i : InstanceRow) (rows : List InstanceRow)
    → (i.asset_id == k) ≡ true
    → has_instance k (i ∷ rows) ≡ true
unfolding has_instance
has_instance_here k i rows mine = ground arith

has_instance_later :
    (k : ℕ) (i : InstanceRow) (rows : List InstanceRow)
    → (i.asset_id == k) ≡ false
    → has_instance k (i ∷ rows) ≡ has_instance k rows
unfolding has_instance
has_instance_later k i rows other = ground arith

has_instance_nil : (k : ℕ) → has_instance k [] ≢ true
unfolding has_instance
has_instance_nil k h = cc

find_path_nil : (root : ℕ) (p : FilePath) → find_path root p [] ≡ none
unfolding find_path
find_path_nil root p = refl

module _ (asset root : ℕ) (cand : Candidate) (seen_at next : ℕ) where
  abbrev rows_after : List InstanceRow → List InstanceRow
  rows_after rows = upsert_row asset root cand seen_at next rows

  abbrev updated : InstanceRow → InstanceRow
  updated i = record i {
    asset_id = asset;
    size = cand.size;
    mtime = some cand.mtime;
    last_seen_at = seen_at;
  }

  at_path-updated :
      (r : ℕ) (q : FilePath) (i : InstanceRow) → at_path r q (updated i) ≡ at_path r q i
  unfolding at_path
  at_path-updated r q i = refl

  upsert_row-Linked :
      (assets : List AssetRow) (rows : List InstanceRow)
      → has_asset asset assets ≡ true
      → Linked assets rows
      → Linked assets (rows_after rows)
  unfolding upsert_row
  upsert_row-Linked assets [] has linked = (has, tt)
  upsert_row-Linked assets (i ∷ rows) has linked = elim (Bool-cases (at_path root cand.path i)) [
    | inl here ↦ rw here (has, linked.1)
    | inr later ↦ rw later (linked.0, upsert_row-Linked assets rows has linked.1)
  ]

  upsert_row-find_path :
      (rows : List InstanceRow)
      → (i : InstanceRow) × (find_path root cand.path (rows_after rows) ≡ some i)
        × (i.asset_id ≡ asset)
  unfolding upsert_row
  upsert_row-find_path [] =
      (_, find_path_here root cand.path _ [] (at_path_self root cand.path _ refl refl), refl)
  upsert_row-find_path (i ∷ rows) = elim (Bool-cases (at_path root cand.path i)) [
    | inl here ↦
        rw here
          (_, find_path_here root cand.path _ rows (at_path-updated root cand.path i ∙ here), refl)
    | inr later ↦
        let (j, found, mine) = upsert_row-find_path rows in
        rw later (j, find_path_later root cand.path i _ later ∙ found, mine)
  ]

  upsert_row-has_instance : (rows : List InstanceRow) → has_instance asset (rows_after rows) ≡ true
  unfolding upsert_row has_instance
  upsert_row-has_instance [] = ground arith
  upsert_row-has_instance (i ∷ rows) = elim (Bool-cases (at_path root cand.path i)) [
    | inl here ↦ rw (here, has_instance) (ground arith)
    | inr later ↦ rw (later, has_instance) (ground (arith, upsert_row-has_instance rows))
  ]

  has_instance_other :
      (k : ℕ) (i : InstanceRow) (rows : List InstanceRow)
      → (i.asset_id == k) ≡ false
      → has_instance k (i ∷ rows) ≡ true
      → has_instance k (updated i ∷ rows) ≡ true
  unfolding has_instance
  has_instance_other k i rows other has = ground arith

  -- An asset loses at most the instance that stood at the path.
  upsert_row-kept :
      (k : ℕ) (rows : List InstanceRow)
      → has_instance k rows ≡ true
      → (has_instance k (rows_after rows) ≡ true)
        ⊎ ((prev : InstanceRow) × (find_path root cand.path rows ≡ some prev) × (k ≡ prev.asset_id))
  unfolding upsert_row
  upsert_row-kept k [] has = absurd (has_instance_nil k has)
  upsert_row-kept k (i ∷ rows) has = elim (Bool-cases (at_path root cand.path i)) [
    | inl here ↦ rw here (elim (Bool-cases (i.asset_id == k)) [
      | inl mine ↦ inr (i, find_path_here root cand.path i rows here, ground arith)
      | inr other ↦ inl (has_instance_other k i rows other has)
    ])
    | inr later ↦ rw later (elim (Bool-cases (i.asset_id == k)) [
      | inl mine ↦ inl (has_instance_here k i (rows_after rows) mine)
      | inr other ↦ elim (upsert_row-kept k rows (sym (has_instance_later k i rows other) ∙ has)) [
        | inl still ↦ inl (has_instance_later k i (rows_after rows) other ∙ still)
        | inr (prev, found, lost) ↦
            inr (prev, find_path_later root cand.path i rows later ∙ found, lost)
      ]
    ])
  ]

  upsert_row-apart :
      (i : InstanceRow) (rows : List InstanceRow)
      → at_path root cand.path i ≡ false
      → find_path i.root_id i.path rows ≡ none
      → find_path i.root_id i.path (rows_after rows) ≡ none
  unfolding upsert_row
  upsert_row-apart i [] other free =
      find_path_later i.root_id i.path _ [] (at_path_other root cand.path i _ other refl refl)
      ∙ find_path_nil i.root_id i.path
  upsert_row-apart i (j ∷ rows) other free =
      let (away, free_rest) = find_path-none i.root_id i.path j rows free in
      elim (Bool-cases (at_path root cand.path j)) [
        | inl here ↦ rw here (
            find_path_later i.root_id i.path (updated j) rows
              (at_path-updated i.root_id i.path j ∙ away)
            ∙ free_rest)
        | inr later ↦
            rw later
              (find_path_later i.root_id i.path j _ away ∙ upsert_row-apart i rows other free_rest)
      ]

  upsert_row-OnePath : (rows : List InstanceRow) → OnePath rows → OnePath (rows_after rows)
  unfolding upsert_row
  upsert_row-OnePath [] one = (find_path_nil root cand.path, tt)
  upsert_row-OnePath (i ∷ rows) one = elim (Bool-cases (at_path root cand.path i)) [
    | inl here ↦ rw here one
    | inr later ↦ rw later (upsert_row-apart i rows later one.0, upsert_row-OnePath rows one.1)
  ]

  Owned_after :
      (k : ℕ) (assets : List AssetRow) (rows : List InstanceRow)
      → ((prev : InstanceRow) → find_path root cand.path rows ≡ some prev → prev.asset_id ≡ k)
      → OwnedBut asset assets rows
      → OwnedBut k assets (rows_after rows)
  Owned_after k [] rows only owned = tt
  Owned_after k (a ∷ assets) rows only owned = (
    (λ active. elim (owned.0 active) [
      | inl has ↦ elim (upsert_row-kept a.id rows has) [
        | inl still ↦ inl still
        | inr (prev, found, lost) ↦ inr (lost ∙ only prev found)
      ]
      | inr mine ↦ inl (
          subst (λ j. has_instance j (rows_after rows) ≡ true) (sym mine)
            (upsert_row-has_instance rows))
    ]),
    Owned_after k assets rows only owned.1,
  )

module _ (asset root : ℕ) (cand : Candidate) (seen_at : ℕ) (cat : Catalogue) where
  abbrev upserted : List InstanceRow
  upserted = upsert_row asset root cand seen_at (max_fid cat.instances + 1) cat.instances

  -- The catalogue before the previous asset is looked at.
  abbrev Previous : Option InstanceRow → Type 0
  Previous o =
      find_path root cand.path cat.instances ≡ o
      → Sound (forget_previous o asset (record cat { instances = upserted }))

  Previous-Sound :
      (o : Option InstanceRow) → has_asset asset cat.assets ≡ true → SoundBut asset cat → Previous o
  unfolding forget_previous
  Previous-Sound none has (linked, owned, one_hash, one_path) e = (
    upsert_row-Linked asset root cand seen_at _ cat.assets cat.instances has linked,
    Owned-still asset cat.assets upserted
        (upsert_row-has_instance asset root cand seen_at _ cat.instances)
        (Owned_after asset root cand seen_at _ asset cat.assets cat.instances
          (λ prev found. absurd (let both = sym e ∙ found in cc)) owned),
    one_hash,
    upsert_row-OnePath asset root cand seen_at _ cat.instances one_path,
  )
  Previous-Sound (some prev) has (linked, owned, one_hash, one_path) e =
      let still =
        Owned_after asset root cand seen_at (max_fid cat.instances + 1) prev.asset_id cat.assets
          cat.instances
          (λ other found.
            let both : some prev ≡ some other = sym e ∙ found in
            let one : prev ≡ other = cc in ap (λ (x : InstanceRow). x.asset_id) (sym one))
          owned in
      let has_upserted = upsert_row-has_instance asset root cand seen_at _ cat.instances in
      let linked_on =
        upsert_row-Linked asset root cand seen_at _ cat.assets cat.instances has linked in
      let paths = upsert_row-OnePath asset root cand seen_at _ cat.instances one_path in
      elim (Bool-cases (prev.asset_id == asset)) [
        | inl same ↦ rw same (
          linked_on,
          Owned-still prev.asset_id cat.assets upserted
              (subst (λ j. has_instance j upserted ≡ true) (sym (same_id prev.asset_id asset same))
                has_upserted)
              still,
          one_hash,
          paths,
        )
        | inr other ↦ rw other (
            forget_if_orphaned-Sound prev.asset_id (record cat { instances = upserted })
              (linked_on, still, one_hash, paths))
      ]

  -- Recording a file keeps the rows together, when its asset is there: the asset that the path
  -- belonged to before is forgotten when that was its last instance.
  pub upsert_instance-Sound :
      has_asset asset cat.assets ≡ true
      → SoundBut asset cat
      → Sound (upsert_instance asset root cand seen_at cat)
  unfolding upsert_instance
  upsert_instance-Sound has sound =
      Previous-Sound (find_path root cand.path cat.instances) has sound refl

  previous-find_hash :
      (o : Option InstanceRow) (h : ℕ) (a : AssetRow)
      → find_hash h cat.assets ≡ some a
      → a.id ≡ asset
      → find_hash h (forget_previous o asset (record cat { instances = upserted })).assets ≡ some a
  unfolding forget_previous forget_if_orphaned
  previous-find_hash none h a e mine = e
  previous-find_hash (some prev) h a e mine = elim (Bool-cases (prev.asset_id == asset)) [
    | inl same ↦ rw same e
    | inr other ↦ rw other (elim (Bool-cases (has_instance prev.asset_id upserted)) [
      | inl has ↦ rw has e
      | inr bare ↦
          rw bare (find_hash-delete h prev.asset_id a cat.assets (λ same. absurd (ground arith)) e)
    ])
  ]

  previous-instances :
      (o : Option InstanceRow)
      → (forget_previous o asset (record cat { instances = upserted })).instances ≡ upserted
  unfolding forget_previous
  previous-instances none = refl
  previous-instances (some prev) = elim (Bool-cases (prev.asset_id == asset)) [
    | inl same ↦ rw same refl
    | inr other ↦ rw other (forget-instances prev.asset_id (record cat { instances = upserted }))
  ]

  -- The content of an asset that the catalogue has stands at the path.
  pub upsert_instance-found :
      (h : ℕ) (a : AssetRow)
      → find_hash h cat.assets ≡ some a
      → a.id ≡ asset
      → find_hash h (upsert_instance asset root cand seen_at cat).assets ≡ some a
  unfolding upsert_instance
  upsert_instance-found h a e mine =
      previous-find_hash (find_path root cand.path cat.instances) h a e mine

  pub upsert_instance-find_path :
      (i : InstanceRow) × (find_path root cand.path
          (upsert_instance asset root cand seen_at cat).instances
        ≡ some i)
      × (i.asset_id ≡ asset)
  unfolding upsert_instance
  upsert_instance-find_path =
      let (i, found, mine) = upsert_row-find_path asset root cand seen_at _ cat.instances in
      (
        i,
        ap (find_path root cand.path) (previous-instances (find_path root cand.path cat.instances))
            ∙ found,
        mine,
      )
