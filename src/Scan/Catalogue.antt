-- ===== src/Scan/Catalogue.antt =====
-- The catalogue as a scan writes it: the persistence helpers and _resolve_and_persist of
-- src/packrat/jobs/scan.py, with src/packrat/jobs/_dbops.py, on lists for the tables assets, phash,
-- vphash and file_instances (src/packrat/db/schema.py). The fingerprints of an asset stand in its
-- row, since they go with it. The columns that no decision reads, like the width, are left out.
pub mod Rows
pub mod Upsert
pub mod Assets
pub mod Resolve
use packrat.Prelude.{
  ℕ, zero, suc, ◌+◌, ◌-◌, ◌*◌, ◌/◌, ◌%◌, ◌≤◌, ◌<◌, min, max, ◌≡◌, refl, sym, ap, ◌∙◌, ◌≢◌, ◌⊎◌, inl,
  inr, Bool, true, false, not, ◌&&◌, ◌||◌, Option, none, some, List, [], ◌∷◌, ◌++◌, map, arith,
  length, All, All-imp, All-snoc, All-append, All-at, Has, ltb, leb, ◌==◌, if◌then◌else◌,
  Bool-cases, Option-cases, ==_iff, ==_false, leb→le,
}
use packrat.Paths.{FilePath, same_path}
use packrat.Dedup.Matcher.{MediaType, photo, video, Bytes, Frame}
use packrat.Scan.Walk.{Candidate}
use packrat.Scan.Known.{asset_fully_fingerprinted}

pub record AssetRow : Type 0 where
  pub id : ℕ
  pub content_hash : ℕ
  pub media_type : MediaType
  pub is_trashed : Bool
  pub undecodable : Bool
  pub phash : Option Bytes
  pub vphash : List Frame

pub record InstanceRow : Type 0 where
  pub id : ℕ
  pub asset_id : ℕ
  pub root_id : ℕ
  pub path : FilePath
  pub size : ℕ
  pub mtime : Option ℕ
  pub last_seen_at : ℕ

-- `needs_dedup` lists the roots where the flag is set.
pub record Catalogue : Type 0 where
  pub assets : List AssetRow
  pub instances : List InstanceRow
  pub needs_dedup : List ℕ

-- media.Fingerprint, less the columns left out.
pub record Fingerprint : Type 0 where
  pub media_type : MediaType
  pub content_hash : ℕ
  pub undecodable : Bool
  pub phash_bits : Option Bytes
  pub frames : List Frame

pub data Outcome : Type 0 where
  new exact_dup matches_trashed backfilled undecodable_file : Outcome

unfoldable pub find_hash : ℕ → List AssetRow → Option AssetRow
find_hash h [] = none
find_hash h (a ∷ rest) = if a.content_hash == h then some a else find_hash h rest

-- SQLite gives a new row the largest id and one more.
unfoldable pub max_id : List AssetRow → ℕ
max_id [] = 0
max_id (a ∷ rest) = max a.id (max_id rest)

unfoldable pub max_fid : List InstanceRow → ℕ
max_fid [] = 0
max_fid (i ∷ rest) = max i.id (max_fid rest)

unfoldable pub at_path : ℕ → FilePath → InstanceRow → Bool
at_path root p i = (i.root_id == root) && same_path i.path p

unfoldable pub find_path : ℕ → FilePath → List InstanceRow → Option InstanceRow
find_path root p [] = none
find_path root p (i ∷ rest) = if at_path root p i then some i else find_path root p rest

unfoldable pub has_instance : ℕ → List InstanceRow → Bool
has_instance k [] = false
has_instance k (i ∷ rest) = (i.asset_id == k) || has_instance k rest

unfoldable pub delete_instance : ℕ → List InstanceRow → List InstanceRow
delete_instance fid [] = []
delete_instance fid (i ∷ rest) =
    let kept = delete_instance fid rest in if i.id == fid then kept else i ∷ kept

unfoldable pub is_forgotten : ℕ → AssetRow → Bool
is_forgotten k a = (a.id == k) && not a.is_trashed

unfoldable pub delete_active : ℕ → List AssetRow → List AssetRow
delete_active k [] = []
delete_active k (a ∷ rest) =
    let kept = delete_active k rest in if is_forgotten k a then kept else a ∷ kept

unfoldable pub forget_if_orphaned : ℕ → Catalogue → Catalogue
forget_if_orphaned k cat =
    if has_instance k cat.instances then cat else record cat { assets = delete_active k cat.assets }

-- INSERT of an instance, ON CONFLICT(root_id, path) DO UPDATE: the conflict is on the exact path.
unfoldable pub upsert_row : ℕ → ℕ → Candidate → ℕ → ℕ → List InstanceRow → List InstanceRow
upsert_row asset root cand seen_at next [] =
    record {
      id = next;
      asset_id = asset;
      root_id = root;
      path = cand.path;
      size = cand.size;
      mtime = some cand.mtime;
      last_seen_at = seen_at;
    }
    ∷ []
upsert_row asset root cand seen_at next (i ∷ rest) =
    if at_path root cand.path i
    then record i {
      asset_id = asset;
      size = cand.size;
      mtime = some cand.mtime;
      last_seen_at = seen_at;
    }
      ∷ rest
    else i ∷ upsert_row asset root cand seen_at next rest

unfoldable pub forget_previous : Option InstanceRow → ℕ → Catalogue → Catalogue
forget_previous none asset cat = cat
forget_previous (some prev) asset cat =
    if prev.asset_id == asset then cat else forget_if_orphaned prev.asset_id cat

unfoldable pub upsert_instance : ℕ → ℕ → Candidate → ℕ → Catalogue → Catalogue
upsert_instance asset root cand seen_at cat =
    forget_previous (find_path root cand.path cat.instances) asset (record cat {
      instances = upsert_row asset root cand seen_at (max_fid cat.instances + 1) cat.instances;
    })

-- INSERT of a frame, ON CONFLICT(asset_id, frame_index) DO UPDATE.
unfoldable pub put_frame : Frame → List Frame → List Frame
put_frame f [] = f ∷ []
put_frame f (g ∷ rest) = if g.frame_index == f.frame_index then f ∷ rest else g ∷ put_frame f rest

unfoldable pub put_frames : List Frame → List Frame → List Frame
put_frames [] table = table
put_frames (f ∷ frames) table = put_frames frames (put_frame f table)

unfoldable pub put_phash : Option Bytes → AssetRow → AssetRow
put_phash none a = a
put_phash (some bits) a = record a { phash = some bits }

unfoldable pub put_perceptual : MediaType → Fingerprint → AssetRow → AssetRow
put_perceptual video fp a = record a { vphash = put_frames fp.frames a.vphash }
put_perceptual photo fp a = put_phash fp.phash_bits a

unfoldable pub insert_perceptual : Fingerprint → AssetRow → AssetRow
insert_perceptual fp a = if fp.undecodable then a else put_perceptual fp.media_type fp a

unfoldable pub new_asset : ℕ → Fingerprint → AssetRow
new_asset id fp = insert_perceptual fp (record {
  id = id;
  content_hash = fp.content_hash;
  media_type = fp.media_type;
  is_trashed = false;
  undecodable = fp.undecodable;
  phash = none;
  vphash = [];
})

unfoldable pub set_needs_dedup : ℕ → Catalogue → Catalogue
set_needs_dedup root cat = record cat { needs_dedup = root ∷ cat.needs_dedup }

unfoldable pub mark_if : Bool → ℕ → Catalogue → Catalogue
mark_if dirty root cat = if dirty then set_needs_dedup root cat else cat

-- What _persist_new does when another worker has, or has not, inserted an asset with this hash.
unfoldable pub persist_found :
    Option AssetRow → ℕ → Candidate → Fingerprint → ℕ → Catalogue → Catalogue × Bool
persist_found (some a) root cand fp seen_at cat =
    (upsert_instance a.id root cand seen_at cat, false)
persist_found none root cand fp seen_at cat =
    let id = max_id cat.assets + 1 in
    (
      mark_if (not fp.undecodable) root (
          upsert_instance id root cand seen_at
            (record cat { assets = cat.assets ++ new_asset id fp ∷ [] })),
      true,
    )

unfoldable pub persist_new : ℕ → Candidate → Fingerprint → ℕ → Catalogue → Catalogue × Bool
persist_new root cand fp seen_at cat =
    persist_found (find_hash fp.content_hash cat.assets) root cand fp seen_at cat

-- The UPDATE of the asset, with its old fingerprints deleted and the new ones inserted.
unfoldable pub refill : Fingerprint → AssetRow → AssetRow
refill fp a =
    insert_perceptual fp (record a { undecodable = fp.undecodable; phash = none; vphash = [] })

unfoldable pub refill_asset : ℕ → Fingerprint → List AssetRow → List AssetRow
refill_asset k fp [] = []
refill_asset k fp (a ∷ rest) = (if a.id == k then refill fp a else a) ∷ refill_asset k fp rest

unfoldable pub persist_backfill : AssetRow → ℕ → Candidate → Fingerprint → ℕ → Catalogue → Catalogue
persist_backfill a root cand fp seen_at cat =
    mark_if (not fp.undecodable && not a.is_trashed) root (
      upsert_instance a.id root cand seen_at
        (record cat { assets = refill_asset a.id fp cat.assets }))

unfoldable pub attach_instance : ℕ → ℕ → Candidate → ℕ → Catalogue → Catalogue
attach_instance k root cand seen_at cat = upsert_instance k root cand seen_at cat

unfoldable pub repoint_moved : ℕ → Candidate → ℕ → List InstanceRow → List InstanceRow
repoint_moved fid cand seen_at [] = []
repoint_moved fid cand seen_at (i ∷ rest) =
    (if i.id == fid then record i { path = cand.path; last_seen_at = seen_at } else i)
    ∷ repoint_moved fid cand seen_at rest

unfoldable pub has_bits : Option Bytes → Bool
has_bits none = false
has_bits (some b) = true

unfoldable pub has_frames : List Frame → Bool
has_frames [] = false
has_frames (f ∷ rest) = true

unfoldable pub is_complete : AssetRow → Bool
is_complete a =
    asset_fully_fingerprinted a.undecodable a.media_type (has_bits a.phash) (has_frames a.vphash)

unfoldable pub needs_backfill : Bool → AssetRow → Bool
needs_backfill full a = (not a.undecodable && not (is_complete a)) || (a.undecodable && full)

unfoldable pub trash_or : AssetRow → Outcome → Outcome
trash_or a outcome = if a.is_trashed then matches_trashed else outcome

-- `fp` is what decoding gives where it is asked for; the problem report is left out.
unfoldable pub resolve_found :
    Option AssetRow → ℕ → Candidate → Fingerprint → Bool → ℕ → Catalogue → Catalogue × Outcome
resolve_found none root cand fp full seen_at cat =
    let done = persist_new root cand fp seen_at cat in
    (done.0, if not done.1 then exact_dup else if fp.undecodable then undecodable_file else new)
resolve_found (some a) root cand fp full seen_at cat =
    if needs_backfill full a
    then (
      persist_backfill a root cand fp seen_at cat,
      if fp.undecodable then undecodable_file else trash_or a backfilled,
    )
    else (attach_instance a.id root cand seen_at cat, trash_or a exact_dup)

unfoldable pub resolve_and_persist :
    ℕ → Candidate → Fingerprint → Bool → ℕ → Catalogue → Catalogue × Outcome
resolve_and_persist root cand fp full seen_at cat =
    resolve_found (find_hash fp.content_hash cat.assets) root cand fp full seen_at cat
