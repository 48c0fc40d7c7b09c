-- ===== src/Scan/Catalogue/Assets.antt =====
-- What the inserts and updates of _persist_new and _persist_backfill do to the table of assets.
use packrat.Prelude.{
  ℕ, ◌≡◌, refl, sym, ap, ◌∙◌, ◌≢◌, inl, inr, Bool, true, false, Option, none, some, List, [], ◌∷◌,
  ◌++◌, arith, ◌==◌, if◌then◌else◌, Bool-cases,
}
use mathlib.Core.Path.{subst}
use packrat.Dedup.Matcher.{MediaType, photo, video, Bytes}
use packrat.Scan.Catalogue.{
  AssetRow, InstanceRow, Fingerprint, find_hash, has_instance, put_phash, put_perceptual,
  insert_perceptual, refill, refill_asset,
}
use packrat.Scan.Catalogue.Rows.{
  has_asset, Linked, OwnedBut, Owned, OneHash, find_hash_first, find_hash_rest,
}

-- Fingerprints leave what names an asset as it is.
abbrev pub SameName : AssetRow → AssetRow → Type 0
SameName a b = (a.id ≡ b.id) × (a.content_hash ≡ b.content_hash) × (a.is_trashed ≡ b.is_trashed)

put_perceptual-SameName :
    (m : MediaType) (bits : Option Bytes) (fp : Fingerprint) (a : AssetRow)
    → fp.phash_bits ≡ bits
    → SameName (put_perceptual m fp a) a
unfolding put_perceptual put_phash
put_perceptual-SameName video bits fp a e = (refl, refl, refl)
put_perceptual-SameName photo none fp a e = rw e (refl, refl, refl)
put_perceptual-SameName photo (some bits) fp a e = rw e (refl, refl, refl)

either-SameName :
    (skip : Bool) (fp : Fingerprint) (a : AssetRow)
    → SameName (if skip then a else put_perceptual fp.media_type fp a) a
either-SameName true fp a = (refl, refl, refl)
either-SameName false fp a = put_perceptual-SameName fp.media_type fp.phash_bits fp a refl

pub insert_perceptual-SameName :
    (fp : Fingerprint) (a : AssetRow) → SameName (insert_perceptual fp a) a
unfolding insert_perceptual
insert_perceptual-SameName fp a = either-SameName fp.undecodable fp a

find_hash_nil : (h : ℕ) (a : AssetRow) → find_hash h [] ≢ some a
unfolding find_hash
find_hash_nil h a e = cc

pub has_asset-find_hash :
    (h : ℕ) (a : AssetRow) (assets : List AssetRow)
    → find_hash h assets ≡ some a
    → has_asset a.id assets ≡ true
has_asset-find_hash h a [] e = absurd (find_hash_nil h a e)
has_asset-find_hash h a (b ∷ assets) e = elim (Bool-cases (b.content_hash == h)) [
  | inl here ↦
      let first : some b ≡ some a = sym (find_hash_first h b assets here) ∙ e in
      let same : b ≡ a = cc in let ids = ap (λ (x : AssetRow). x.id) same in ground arith
  | inr later ↦
      let has = has_asset-find_hash h a assets (sym (find_hash_rest h b assets later) ∙ e) in
      ground arith
]

module _ (n : AssetRow) where
  has_asset-append :
      (k : ℕ) (assets : List AssetRow)
      → has_asset k assets ≡ true
      → has_asset k (assets ++ n ∷ []) ≡ true
  has_asset-append k [] h = cc
  has_asset-append k (a ∷ assets) h = ground (arith, has_asset-append k assets)

  pub has_asset_last : (assets : List AssetRow) → has_asset n.id (assets ++ n ∷ []) ≡ true
  has_asset_last [] = ground arith
  has_asset_last (a ∷ assets) = ground (arith, has_asset_last assets)

  find_hash-append :
      (h : ℕ) (assets : List AssetRow)
      → (n.content_hash == h) ≡ false
      → find_hash h assets ≡ none
      → find_hash h (assets ++ n ∷ []) ≡ none
  unfolding find_hash
  find_hash-append h [] other e = ground arith
  find_hash-append h (a ∷ assets) other e = ground (arith, find_hash-append h assets)

  pub find_hash_last :
      (assets : List AssetRow)
      → find_hash n.content_hash assets ≡ none
      → find_hash n.content_hash (assets ++ n ∷ []) ≡ some n
  unfolding find_hash
  find_hash_last [] e = ground arith
  find_hash_last (a ∷ assets) e = ground (arith, find_hash_last assets)

  pub OneHash-append :
      (assets : List AssetRow)
      → find_hash n.content_hash assets ≡ none
      → OneHash assets
      → OneHash (assets ++ n ∷ [])
  unfolding find_hash
  OneHash-append [] e one = (refl, tt)
  OneHash-append (a ∷ assets) e one = (
    find_hash-append a.content_hash assets (ground arith) one.0,
    OneHash-append assets (ground arith) one.1,
  )

  pub Linked-append :
      (assets : List AssetRow) (rows : List InstanceRow)
      → Linked assets rows
      → Linked (assets ++ n ∷ []) rows
  Linked-append assets [] linked = tt
  Linked-append assets (i ∷ rows) linked =
      (has_asset-append i.asset_id assets linked.0, Linked-append assets rows linked.1)

  pub Owned-append :
      (assets : List AssetRow) (rows : List InstanceRow)
      → Owned assets rows
      → OwnedBut n.id (assets ++ n ∷ []) rows
  Owned-append [] rows owned = ((λ active. inr refl), tt)
  Owned-append (a ∷ assets) rows owned =
      ((λ active. inl (owned.0 active)), Owned-append assets rows owned.1)

-- The same assets by name, as far as the rules for rows can see.
abbrev pub Renamed : List AssetRow → List AssetRow → Type 0
Renamed [] [] = Unit
Renamed [] (b ∷ bs) = ⊥
Renamed (a ∷ as_) [] = ⊥
Renamed (a ∷ as_) (b ∷ bs) = SameName a b × Renamed as_ bs

refill-SameName : (fp : Fingerprint) (a : AssetRow) → SameName (refill fp a) a
unfolding refill
refill-SameName fp a =
    insert_perceptual-SameName fp
      (record a { undecodable = fp.undecodable; phash = none; vphash = [] })

refill_if-SameName :
    (b : Bool) (fp : Fingerprint) (a : AssetRow) → SameName (if b then refill fp a else a) a
refill_if-SameName true fp a = refill-SameName fp a
refill_if-SameName false fp a = (refl, refl, refl)

pub refill_asset-Renamed :
    (k : ℕ) (fp : Fingerprint) (assets : List AssetRow) → Renamed (refill_asset k fp assets) assets
unfolding refill_asset
refill_asset-Renamed k fp [] = tt
refill_asset-Renamed k fp (a ∷ assets) =
    (refill_if-SameName (a.id == k) fp a, refill_asset-Renamed k fp assets)

pub Renamed-has_asset :
    (k : ℕ) (xs ys : List AssetRow) → Renamed xs ys → has_asset k xs ≡ has_asset k ys
Renamed-has_asset k [] [] same = refl
Renamed-has_asset k [] (y ∷ ys) same = absurd same
Renamed-has_asset k (x ∷ xs) [] same = absurd same
Renamed-has_asset k (x ∷ xs) (y ∷ ys) same =
    let ids = same.0.0 in ground (arith, Renamed-has_asset k xs ys same.1)

pub Renamed-Linked :
    (xs ys : List AssetRow) (rows : List InstanceRow)
    → Renamed xs ys
    → Linked ys rows
    → Linked xs rows
Renamed-Linked xs ys [] same linked = tt
Renamed-Linked xs ys (i ∷ rows) same linked =
    (Renamed-has_asset i.asset_id xs ys same ∙ linked.0, Renamed-Linked xs ys rows same linked.1)

pub Renamed-OwnedBut :
    (k : ℕ) (xs ys : List AssetRow) (rows : List InstanceRow)
    → Renamed xs ys
    → Owned ys rows
    → OwnedBut k xs rows
Renamed-OwnedBut k [] [] rows same owned = tt
Renamed-OwnedBut k [] (y ∷ ys) rows same owned = absurd same
Renamed-OwnedBut k (x ∷ xs) [] rows same owned = absurd same
Renamed-OwnedBut k (x ∷ xs) (y ∷ ys) rows same owned = (
  (λ active.
      inl
        (subst (λ j. has_instance j rows ≡ true) (sym same.0.0) (owned.0 (sym same.0.2 ∙ active)))),
  Renamed-OwnedBut k xs ys rows same.1 owned.1,
)

Renamed-find_none :
    (h : ℕ) (xs ys : List AssetRow) → Renamed xs ys → find_hash h ys ≡ none → find_hash h xs ≡ none
unfolding find_hash
Renamed-find_none h [] [] same e = e
Renamed-find_none h [] (y ∷ ys) same e = absurd same
Renamed-find_none h (x ∷ xs) [] same e = absurd same
Renamed-find_none h (x ∷ xs) (y ∷ ys) same e =
    let hashes = same.0.1 in ground (arith, Renamed-find_none h xs ys same.1)

pub Renamed-find_hash :
    (h : ℕ) (xs ys : List AssetRow) (a : AssetRow)
    → Renamed xs ys
    → find_hash h ys ≡ some a
    → (b : AssetRow) × (find_hash h xs ≡ some b) × (b.id ≡ a.id)
Renamed-find_hash h [] [] a same e = absurd (find_hash_nil h a e)
Renamed-find_hash h [] (y ∷ ys) a same e = absurd same
Renamed-find_hash h (x ∷ xs) [] a same e = absurd same
Renamed-find_hash h (x ∷ xs) (y ∷ ys) a same e = elim (Bool-cases (y.content_hash == h)) [
  | inl here ↦
      let hashes = same.0.1 in
      let first : some y ≡ some a = sym (find_hash_first h y ys here) ∙ e in
      let one : y ≡ a = cc in
      (x, find_hash_first h x xs (ground arith), same.0.0 ∙ ap (λ (z : AssetRow). z.id) one)
  | inr later ↦
      let hashes = same.0.1 in
      let (b, found, ids) =
        Renamed-find_hash h xs ys a same.1 (sym (find_hash_rest h y ys later) ∙ e) in
      (b, find_hash_rest h x xs (ground arith) ∙ found, ids)
]

pub Renamed-OneHash : (xs ys : List AssetRow) → Renamed xs ys → OneHash ys → OneHash xs
Renamed-OneHash [] [] same one = tt
Renamed-OneHash [] (y ∷ ys) same one = absurd same
Renamed-OneHash (x ∷ xs) [] same one = absurd same
Renamed-OneHash (x ∷ xs) (y ∷ ys) same one = (
  Renamed-find_none x.content_hash xs ys same.1
      (subst (λ h. find_hash h ys ≡ none) (sym same.0.1) one.0),
  Renamed-OneHash xs ys same.1 one.1,
)
