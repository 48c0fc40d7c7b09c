-- ===== src/Scan/Known.antt =====
-- What a scan knows of a root before it looks at a file: load_existing_instances,
-- _asset_fully_fingerprinted, is_fastpath_hit and plan_moves of src/packrat/jobs/scan.py.
-- A time is a number of ticks. `lower` is the change of case of normcase.
pub mod Moves
use packrat.Prelude.{
  ℕ, zero, suc, ◌+◌, ◌-◌, ◌*◌, ◌/◌, ◌%◌, ◌≤◌, ◌<◌, min, max, ◌≡◌, refl, sym, ap, ◌∙◌, ◌≢◌, ◌⊎◌, inl,
  inr, Bool, true, false, not, ◌&&◌, ◌||◌, Option, none, some, List, [], ◌∷◌, ◌++◌, map, arith,
  length, All, All-imp, All-snoc, All-append, All-at, Has, ltb, leb, ◌==◌, if◌then◌else◌,
  Bool-cases, Option-cases, ==_iff, ==_false, leb→le,
}
use packrat.Prelude.Groups.{members_of, group_by}
use packrat.Paths.{FilePath, same_path, normcase, basename}
use packrat.Dedup.Matcher.{MediaType, photo, video}
use packrat.Scan.Walk.{Candidate, Enumeration, is_suppressed}

-- A row of file_instances, with what its asset's row and fingerprints say.
pub record Known : Type 0 where
  pub fid : ℕ
  pub path : FilePath
  pub size : ℕ
  pub mtime : Option ℕ
  pub asset_id : ℕ
  pub undecodable : Bool
  pub media_type : MediaType
  pub is_trashed : Bool
  pub has_phash : Bool
  pub has_vphash : Bool

unfoldable pub asset_fully_fingerprinted : Bool → MediaType → Bool → Bool → Bool
asset_fully_fingerprinted undecodable video has_phash has_vphash = undecodable || has_vphash
asset_fully_fingerprinted undecodable photo has_phash has_vphash = undecodable || has_phash

unfoldable pub is_complete : Known → Bool
is_complete r = asset_fully_fingerprinted r.undecodable r.media_type r.has_phash r.has_vphash

unfoldable pub abs_diff : ℕ → ℕ → ℕ
abs_diff a b = (a - b) + (b - a)

-- Is a stored time, which may be missing, within the tolerance?
unfoldable pub within : ℕ → Option ℕ → ℕ → Bool
within tol none t = false
within tol (some s) t = leb (abs_diff s t) tol

unfoldable pub is_fastpath_hit : ℕ → Option Known → Candidate → Bool
is_fastpath_hit tol none cand = false
is_fastpath_hit tol (some rec) cand =
    (rec.size == cand.size) && within tol rec.mtime cand.mtime && is_complete rec

-- A bucket is the name of a file, in lower case, with its size.
abbrev pub Bucket : Type 0
Bucket = FilePath × ℕ

unfoldable pub same_bucket : Bucket → Bucket → Bool
same_bucket a b = same_path a.0 b.0 && (a.1 == b.1)

module _ (lower : ℕ → ℕ) where
  unfoldable pub key_of : FilePath → FilePath
  key_of p = normcase lower p

  -- The dict of known rows, by the lower case of their paths: its values, in the order of its keys.
  unfoldable pub set_known : Known → List Known → List Known
  set_known r [] = r ∷ []
  set_known r (q ∷ rest) =
      if same_path (key_of q.path) (key_of r.path) then r ∷ rest else q ∷ set_known r rest

  unfoldable pub get_known : FilePath → List Known → Option Known
  get_known k [] = none
  get_known k (q ∷ rest) = if same_path (key_of q.path) k then some q else get_known k rest

  unfoldable pub load_existing_instances : List Known → List Known → List Known
  load_existing_instances [] existing = existing
  load_existing_instances (r ∷ rows) existing = load_existing_instances rows (set_known r existing)

  unfoldable pub bucket_of : FilePath → ℕ → Bucket
  bucket_of path size = (normcase lower (basename path), size)

  unfoldable pub candidate_bucket : Candidate → Bucket
  candidate_bucket c = bucket_of c.path c.size

  unfoldable pub known_bucket : Known → Bucket
  known_bucket r = bucket_of r.path r.size

  unfoldable pub absent_paths : List Known → List Candidate → List Candidate
  absent_paths existing [] = []
  absent_paths existing (c ∷ rest) = elim (get_known (key_of c.path) existing) [
    | none ↦ c ∷ absent_paths existing rest
    | some r ↦ absent_paths existing rest
  ]

  unfoldable pub is_enumerated : FilePath → List Candidate → Bool
  is_enumerated k [] = false
  is_enumerated k (c ∷ rest) = same_path (key_of c.path) k || is_enumerated k rest

  -- The tests on the one row and the one candidate of a bucket.
  unfoldable pub is_move : ℕ → Enumeration → Candidate → Known → Bool
  is_move tol en cand origin =
      not origin.is_trashed
      && not (is_enumerated (key_of origin.path) en.candidates)
      && not (is_suppressed lower en origin.path)
      && within tol origin.mtime cand.mtime
      && is_complete origin

  unfoldable pub move_of : ℕ → Enumeration → List Candidate → List Known → List (Candidate × Known)
  move_of tol en [] rows = []
  move_of tol en (c ∷ []) [] = []
  move_of tol en (c ∷ []) (r ∷ []) = if is_move tol en c r then (c, r) ∷ [] else []
  move_of tol en (c ∷ []) (r ∷ s ∷ rows) = []
  move_of tol en (c ∷ d ∷ cands) rows = []

  unfoldable pub moves_from :
      ℕ
      → Enumeration
      → List (Bucket × List Known)
      → List (Bucket × List Candidate)
      → List (Candidate × Known)
  moves_from tol en db [] = []
  moves_from tol en db ((k, cands) ∷ rest) =
      move_of tol en cands (members_of same_bucket k db) ++ moves_from tol en db rest

  -- The moves are the entries of the dict: the key is the lower case of the candidate's path.
  unfoldable pub plan_moves : List Known → Enumeration → ℕ → List (Candidate × Known)
  plan_moves existing en tol =
      moves_from tol en (group_by same_bucket known_bucket existing [])
        (group_by same_bucket candidate_bucket (absent_paths existing en.candidates) [])
