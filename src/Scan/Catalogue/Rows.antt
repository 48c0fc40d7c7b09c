-- ===== src/Scan/Catalogue/Rows.antt =====
-- When the rows of the catalogue fit together.
use packrat.Prelude.{
  ℕ, ◌≡◌, refl, sym, ap, ◌∙◌, ◌≢◌, ◌⊎◌, inl, inr, Bool, true, false, ◌||◌, none, some, List, [],
  ◌∷◌, arith, All, ◌==◌, Bool-cases,
}
use mathlib.Core.Path.{subst}
use packrat.Scan.Catalogue.{
  AssetRow, InstanceRow, Catalogue, find_hash, find_path, has_instance, is_forgotten, delete_active,
  forget_if_orphaned,
}

abbrev pub has_asset : ℕ → List AssetRow → Bool
has_asset k [] = false
has_asset k (a ∷ rest) = (a.id == k) || has_asset k rest

-- Every instance belongs to an asset of the table.
abbrev pub Linked : List AssetRow → List InstanceRow → Type 0
Linked assets instances = All (λ i. has_asset i.asset_id assets ≡ true) instances

-- Every active asset, but perhaps those with one id, has an instance.
abbrev pub OwnedBut : ℕ → List AssetRow → List InstanceRow → Type 0
OwnedBut k assets instances =
    All (λ a. a.is_trashed ≡ false → (has_instance a.id instances ≡ true) ⊎ (a.id ≡ k)) assets

abbrev pub Owned : List AssetRow → List InstanceRow → Type 0
Owned assets instances = All (λ a. a.is_trashed ≡ false → has_instance a.id instances ≡ true) assets

-- No two assets have one content.
abbrev pub OneHash : List AssetRow → Type 0
OneHash [] = Unit
OneHash (a ∷ rest) = (find_hash a.content_hash rest ≡ none) × OneHash rest

-- No two instances of a root have one path.
abbrev pub OnePath : List InstanceRow → Type 0
OnePath [] = Unit
OnePath (i ∷ rest) = (find_path i.root_id i.path rest ≡ none) × OnePath rest

abbrev pub Sound : Catalogue → Type 0
Sound cat =
    Linked cat.assets cat.instances
    × Owned cat.assets cat.instances
    × OneHash cat.assets
    × OnePath cat.instances

has_asset_later :
    (j k : ℕ) (a : AssetRow) (assets : List AssetRow)
    → j ≢ k
    → is_forgotten k a ≡ true
    → has_asset j (a ∷ assets) ≡ true
    → has_asset j assets ≡ true
unfolding is_forgotten
has_asset_later j k a assets apart gone h = elim (Bool-cases (a.id == j)) [
  | inl same ↦ absurd (apart (ground arith))
  | inr other ↦ ground arith
]

has_asset-delete :
    (j k : ℕ) (assets : List AssetRow)
    → j ≢ k
    → has_asset j assets ≡ true
    → has_asset j (delete_active k assets) ≡ true
unfolding delete_active
has_asset-delete j k [] apart h = h
has_asset-delete j k (a ∷ assets) apart h = elim (Bool-cases (is_forgotten k a)) [
  | inl gone ↦
      rw gone (has_asset-delete j k assets apart (has_asset_later j k a assets apart gone h))
  | inr kept ↦ rw kept (ground (arith, has_asset-delete j k assets apart))
]

find_hash_delete_none :
    (h k : ℕ) (assets : List AssetRow)
    → find_hash h assets ≡ none
    → find_hash h (delete_active k assets) ≡ none
unfolding delete_active find_hash
find_hash_delete_none h k [] e = e
find_hash_delete_none h k (a ∷ assets) e = elim (Bool-cases (is_forgotten k a)) [
  | inl gone ↦ rw gone (find_hash_delete_none h k assets (ground arith))
  | inr kept ↦ rw (kept, find_hash) (ground (arith, find_hash_delete_none h k assets))
]

OneHash-delete :
    (k : ℕ) (assets : List AssetRow) → OneHash assets → OneHash (delete_active k assets)
unfolding delete_active
OneHash-delete k [] one = tt
OneHash-delete k (a ∷ assets) one = elim (Bool-cases (is_forgotten k a)) [
  | inl gone ↦ rw gone (OneHash-delete k assets one.1)
  | inr kept ↦
      rw kept (find_hash_delete_none a.content_hash k assets one.0, OneHash-delete k assets one.1)
]

is_forgotten_yes :
    (k : ℕ) (a : AssetRow) → a.id ≡ k → a.is_trashed ≡ false → is_forgotten k a ≡ true
unfolding is_forgotten
is_forgotten_yes k a same active = ground arith

Owned-delete :
    (k : ℕ) (assets : List AssetRow) (rows : List InstanceRow)
    → OwnedBut k assets rows
    → Owned (delete_active k assets) rows
unfolding delete_active
Owned-delete k [] rows owned = tt
Owned-delete k (a ∷ assets) rows owned = elim (Bool-cases (is_forgotten k a)) [
  | inl gone ↦ rw gone (Owned-delete k assets rows owned.1)
  | inr kept ↦ rw kept (
    (λ active. elim (owned.0 active) [
      | inl has ↦ has
      | inr same ↦ absurd (let gone = is_forgotten_yes k a same active in cc)
    ]),
    Owned-delete k assets rows owned.1,
  )
]

Linked-delete :
    (k : ℕ) (assets : List AssetRow) (rows : List InstanceRow)
    → has_instance k rows ≡ false
    → Linked assets rows
    → Linked (delete_active k assets) rows
unfolding has_instance
Linked-delete k assets [] bare linked = tt
Linked-delete k assets (i ∷ rows) bare linked = (
  has_asset-delete i.asset_id k assets (λ e. absurd (ground arith)) linked.0,
  Linked-delete k assets rows (ground arith) linked.1,
)

pub Owned-still :
    (k : ℕ) (assets : List AssetRow) (rows : List InstanceRow)
    → has_instance k rows ≡ true
    → OwnedBut k assets rows
    → Owned assets rows
Owned-still k [] rows has owned = tt
Owned-still k (a ∷ assets) rows has owned = (
  (λ active. elim (owned.0 active) [
    | inl mine ↦ mine
    | inr same ↦ subst (λ j. has_instance j rows ≡ true) (sym same) has
  ]),
  Owned-still k assets rows has owned.1,
)

-- The rows fit together, but the assets with one id may have lost their last instance.
abbrev pub SoundBut : ℕ → Catalogue → Type 0
SoundBut k cat =
    Linked cat.assets cat.instances
    × OwnedBut k cat.assets cat.instances
    × OneHash cat.assets
    × OnePath cat.instances

-- The rule for orphans restores the catalogue.
pub forget_if_orphaned-Sound :
    (k : ℕ) (cat : Catalogue) → SoundBut k cat → Sound (forget_if_orphaned k cat)
unfolding forget_if_orphaned
forget_if_orphaned-Sound k cat (linked, owned, one_hash, one_path) =
    elim (Bool-cases (has_instance k cat.instances)) [
      | inl has ↦
          rw has (linked, Owned-still k cat.assets cat.instances has owned, one_hash, one_path)
      | inr bare ↦ rw bare (
        Linked-delete k cat.assets cat.instances bare linked,
        Owned-delete k cat.assets cat.instances owned,
        OneHash-delete k cat.assets one_hash,
        one_path,
      )
    ]

pub find_hash_first :
    (h : ℕ) (b : AssetRow) (assets : List AssetRow)
    → (b.content_hash == h) ≡ true
    → find_hash h (b ∷ assets) ≡ some b
unfolding find_hash
find_hash_first h b assets e = rw e refl

pub find_hash_rest :
    (h : ℕ) (b : AssetRow) (assets : List AssetRow)
    → (b.content_hash == h) ≡ false
    → find_hash h (b ∷ assets) ≡ find_hash h assets
unfolding find_hash
find_hash_rest h b assets e = rw e refl

find_hash_later :
    (h k : ℕ) (a b : AssetRow) (assets : List AssetRow)
    → a.id ≢ k
    → is_forgotten k b ≡ true
    → find_hash h (b ∷ assets) ≡ some a
    → find_hash h assets ≡ some a
unfolding find_hash is_forgotten
find_hash_later h k a b assets apart gone e = elim (Bool-cases (b.content_hash == h)) [
  | inl here ↦
      let first : some b ≡ some a = sym (find_hash_first h b assets here) ∙ e in
      let same : b ≡ a = cc in absurd (apart (ap (λ x. x.id) (sym same) ∙ ground arith))
  | inr later ↦ sym (find_hash_rest h b assets later) ∙ e
]

-- The first asset with a content, when it has another id, stays.
pub find_hash-delete :
    (h k : ℕ) (a : AssetRow) (assets : List AssetRow)
    → a.id ≢ k
    → find_hash h assets ≡ some a
    → find_hash h (delete_active k assets) ≡ some a
unfolding delete_active find_hash
find_hash-delete h k a [] apart e = e
find_hash-delete h k a (b ∷ assets) apart e = elim (Bool-cases (is_forgotten k b)) [
  | inl gone ↦
      rw gone (find_hash-delete h k a assets apart (find_hash_later h k a b assets apart gone e))
  | inr kept ↦ rw (kept, find_hash) (ground (arith, find_hash-delete h k a assets apart))
]
