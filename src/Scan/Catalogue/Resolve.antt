-- ===== src/Scan/Catalogue/Resolve.antt =====
-- Every file that a scan resolves is recorded: _resolve_and_persist.
use packrat.Prelude.{
  ℕ, ◌+◌, ◌≡◌, refl, sym, ◌∙◌, inl, inr, Bool, true, false, not, Option, none, some, List, [], ◌∷◌,
  ◌++◌, Bool-cases,
}
use mathlib.Core.Path.{subst}
use packrat.Scan.Walk.{Candidate}
use packrat.Scan.Catalogue.{
  AssetRow, InstanceRow, Catalogue, Fingerprint, find_hash, find_path, max_id, upsert_instance,
  new_asset, set_needs_dedup, mark_if, persist_found, persist_new, refill_asset, persist_backfill,
  attach_instance, needs_backfill, resolve_found, resolve_and_persist,
}
use packrat.Scan.Catalogue.Rows.{has_asset, OwnedBut, Owned, Sound, SoundBut}
use packrat.Scan.Catalogue.Upsert.{
  upsert_instance-Sound, upsert_instance-found, upsert_instance-find_path,
}
use packrat.Scan.Catalogue.Assets.{
  insert_perceptual-SameName, has_asset-find_hash, find_hash_last, OneHash-append, Linked-append,
  Owned-append, refill_asset-Renamed, Renamed-Linked, Renamed-OwnedBut, Renamed-find_hash,
  Renamed-OneHash,
}

OwnedBut-any :
    (k : ℕ) (assets : List AssetRow) (rows : List InstanceRow)
    → Owned assets rows
    → OwnedBut k assets rows
OwnedBut-any k [] rows owned = tt
OwnedBut-any k (a ∷ assets) rows owned =
    ((λ active. inl (owned.0 active)), OwnedBut-any k assets rows owned.1)

new_asset-SameName :
    (id : ℕ) (fp : Fingerprint)
    → ((new_asset id fp).id ≡ id)
      × ((new_asset id fp).content_hash ≡ fp.content_hash)
      × ((new_asset id fp).is_trashed ≡ false)
unfolding new_asset
new_asset-SameName id fp = insert_perceptual-SameName fp _

-- The file's path has an instance, whose asset has the content with this hash.
abbrev pub Recorded : ℕ → Candidate → ℕ → Catalogue → Type 0
Recorded root cand h cat =
    (i : InstanceRow) × (a : AssetRow) × (find_path root cand.path cat.instances ≡ some i)
    × (find_hash h cat.assets ≡ some a)
    × (i.asset_id ≡ a.id)

module _ (root : ℕ) (cand : Candidate) (seen_at : ℕ) where
  -- Recording a file whose content the catalogue has.
  upsert-Both :
      (cat : Catalogue) (h k : ℕ) (a : AssetRow)
      → SoundBut k cat
      → find_hash h cat.assets ≡ some a
      → a.id ≡ k
      → Sound (upsert_instance k root cand seen_at cat)
        × Recorded root cand h (upsert_instance k root cand seen_at cat)
  upsert-Both cat h k a sound e mine =
      let has : has_asset k cat.assets ≡ true =
        subst (λ j. has_asset j cat.assets ≡ true) mine (has_asset-find_hash h a cat.assets e) in
      let (i, found, ids) = upsert_instance-find_path k root cand seen_at cat in
      (
        upsert_instance-Sound k root cand seen_at cat has sound,
        (i, a, found, upsert_instance-found k root cand seen_at cat h a e mine, ids ∙ sym mine),
      )

  mark_if-Both :
      (dirty : Bool) (h : ℕ) (cat : Catalogue)
      → Sound cat × Recorded root cand h cat
      → Sound (mark_if dirty root cat) × Recorded root cand h (mark_if dirty root cat)
  unfolding mark_if set_needs_dedup
  mark_if-Both true h cat both = both
  mark_if-Both false h cat both = both

  abbrev Both : Fingerprint → Catalogue → Type 0
  Both fp cat = Sound cat × Recorded root cand fp.content_hash cat

  persist_found-Both :
      (fp : Fingerprint) (cat : Catalogue)
      → Sound cat
      → find_hash fp.content_hash cat.assets ≡ none
      → Both fp (persist_found none root cand fp seen_at cat).0
  unfolding persist_found
  persist_found-Both fp cat (linked, owned, one_hash, one_path) e =
      let id = max_id cat.assets + 1 in
      let n = new_asset id fp in
      let (ids, hashes, statuses) = new_asset-SameName id fp in
      let absent : find_hash n.content_hash cat.assets ≡ none =
        subst (λ h. find_hash h cat.assets ≡ none) (sym hashes) e in
      let there : find_hash fp.content_hash (cat.assets ++ n ∷ []) ≡ some n =
        subst (λ h. find_hash h (cat.assets ++ n ∷ []) ≡ some n) hashes
          (find_hash_last n cat.assets absent) in
      mark_if-Both (not fp.undecodable) fp.content_hash _ (
        upsert-Both (record cat { assets = cat.assets ++ n ∷ [] }) fp.content_hash id n
          (
            Linked-append n cat.assets cat.instances linked,
            subst (λ k. OwnedBut k (cat.assets ++ n ∷ []) cat.instances) ids
                (Owned-append n cat.assets cat.instances owned),
            OneHash-append n cat.assets absent one_hash,
            one_path,
          )
          there ids)

  persist_new-Both :
      (fp : Fingerprint) (cat : Catalogue)
      → Sound cat
      → find_hash fp.content_hash cat.assets ≡ none
      → Both fp (persist_new root cand fp seen_at cat).0
  unfolding persist_new
  persist_new-Both fp cat sound e =
      subst (λ o. Both fp (persist_found o root cand fp seen_at cat).0) (sym e)
        (persist_found-Both fp cat sound e)

  persist_backfill-Both :
      (a : AssetRow) (fp : Fingerprint) (cat : Catalogue)
      → Sound cat
      → find_hash fp.content_hash cat.assets ≡ some a
      → Both fp (persist_backfill a root cand fp seen_at cat)
  unfolding persist_backfill
  persist_backfill-Both a fp cat (linked, owned, one_hash, one_path) e =
      let same = refill_asset-Renamed a.id fp cat.assets in
      let filled = refill_asset a.id fp cat.assets in
      let (b, found, ids) = Renamed-find_hash fp.content_hash filled cat.assets a same e in
      mark_if-Both _ fp.content_hash _ (
        upsert-Both (record cat { assets = filled }) fp.content_hash a.id b
          (
            Renamed-Linked filled cat.assets cat.instances same linked,
            Renamed-OwnedBut a.id filled cat.assets cat.instances same owned,
            Renamed-OneHash filled cat.assets same one_hash,
            one_path,
          )
          found ids)

  resolve_found-Both :
      (o : Option AssetRow) (fp : Fingerprint) (full : Bool) (cat : Catalogue)
      → Sound cat
      → find_hash fp.content_hash cat.assets ≡ o
      → Both fp (resolve_found o root cand fp full seen_at cat).0
  unfolding resolve_found attach_instance
  resolve_found-Both none fp full cat sound e = persist_new-Both fp cat sound e
  resolve_found-Both (some a) fp full cat sound e = elim (Bool-cases (needs_backfill full a)) [
    | inl needed ↦ rw needed (persist_backfill-Both a fp cat sound e)
    | inr complete ↦ rw complete (
        upsert-Both cat fp.content_hash a.id a
          (sound.0, OwnedBut-any a.id cat.assets cat.instances sound.1, sound.2, sound.3) e refl)
  ]

  -- Resolving a file, with whatever content, whether its bytes decode or not, ends with an instance
  -- at its path whose asset has that content; and it keeps the rows together: every instance belongs
  -- to an asset, every active asset has an instance, no two assets have one content, and no two
  -- instances of a root have one path.
  pub resolve_and_persist-Sound :
      (fp : Fingerprint) (full : Bool) (cat : Catalogue)
      → Sound cat
      → Sound (resolve_and_persist root cand fp full seen_at cat).0
        × Recorded root cand fp.content_hash (resolve_and_persist root cand fp full seen_at cat).0
  unfolding resolve_and_persist
  resolve_and_persist-Sound fp full cat sound =
      resolve_found-Both (find_hash fp.content_hash cat.assets) fp full cat sound refl
