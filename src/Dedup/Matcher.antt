-- ===== src/Dedup/Matcher.antt =====
-- The perceptual matcher of src/packrat/matcher.py: PDQ signatures, their Hamming distance, and the
-- edges between a target set and a pool. A blob is a list of bytes. Python's floats are a
-- parameter, a carrier with the operations that the matcher uses; a division by zero raises, and
-- is `none`.
pub mod Dict
pub mod Loops
pub mod Edges
pub mod Photos
pub mod Videos
use packrat.Prelude.{
  ℕ, zero, suc, ◌+◌, ◌-◌, ◌*◌, ◌/◌, ◌%◌, ◌≤◌, ◌<◌, min, max, ◌≡◌, refl, sym, ap, ◌∙◌, ◌≢◌, ◌⊎◌, inl,
  inr, Bool, true, false, not, ◌&&◌, ◌||◌, Option, none, some, List, [], ◌∷◌, ◌++◌, map, arith,
  length, All, All-imp, All-snoc, All-append, All-at, Has, ltb, leb, ◌==◌, if◌then◌else◌,
  Bool-cases, Option-cases, ==_iff, ==_false, leb→le,
}

abbrev pub Bytes : Type 0
Bytes = List ℕ

-- PDQ is 256 bits.
abbrev pub pdq_bytes : ℕ
pdq_bytes = 32

pub record PhotoSig : Type 0 where
  pub asset_id : ℕ
  pub bits : Option Bytes
  pub quality : Option ℕ

pub record Frame : Type 0 where
  pub frame_index : ℕ
  pub bits : Bytes
  pub quality : ℕ

pub record VideoSig (F : Type 0) : Type 0 where
  pub asset_id : ℕ
  pub duration_s : Option F
  pub frames : List Frame

pub record Signatures (F : Type 0) : Type 0 where
  pub photos : List PhotoSig
  pub videos : List (VideoSig F)

pub data MediaType : Type 0 where
  photo video : MediaType

pub record Edge : Type 0 where
  pub asset_a : ℕ
  pub asset_b : ℕ
  pub media_type : MediaType
  pub distance : ℕ

-- The exclusive or of two numbers of `w` bits, and the number of ones.
unfoldable pub xor : ℕ → ℕ → ℕ → ℕ
xor zero a b = 0
xor (suc w) a b = (a + b) % 2 + 2 * xor w (a / 2) (b / 2)

unfoldable pub popcount : ℕ → ℕ → ℕ
popcount zero n = 0
popcount (suc w) n = n % 2 + popcount w (n / 2)

-- The callers pass two blobs of equal length.
unfoldable pub hamming : Bytes → Bytes → ℕ
hamming [] bs = 0
hamming (a ∷ rest) [] = 0
hamming (a ∷ rest) (b ∷ bs) = popcount 8 (xor 8 a b) + hamming rest bs

-- The dict from a pair of assets to a distance, in the order of insertion.
pub record Entry : Type 0 where
  pub asset_a : ℕ
  pub asset_b : ℕ
  pub distance : ℕ

unfoldable pub is_key : ℕ → ℕ → Entry → Bool
is_key a b e = (e.asset_a == a) && (e.asset_b == b)

unfoldable pub get_best : ℕ → ℕ → List Entry → Option ℕ
get_best a b [] = none
get_best a b (e ∷ es) = if is_key a b e then some e.distance else get_best a b es

unfoldable pub set_best : ℕ → ℕ → ℕ → List Entry → List Entry
set_best a b d [] = record { asset_a = a; asset_b = b; distance = d } ∷ []
set_best a b d (e ∷ es) =
    if is_key a b e then record e { distance = d } ∷ es else e ∷ set_best a b d es

unfoldable pub improves : ℕ → Option ℕ → Bool
improves d none = true
improves d (some k) = ltb d k

unfoldable pub keep : ℕ → ℕ → ℕ → List Entry → List Entry
keep a b d best = if improves d (get_best a b best) then set_best a b d best else best

-- One comparison of the loops: self-pairs are skipped, a pair is kept in canonical order.
unfoldable pub consider : ℕ → ℕ → Option ℕ → List Entry → List Entry
consider x y none best = best
consider x y (some d) best =
    if y == x then best else (if ltb x y then keep x y d best else keep y x d best)

unfoldable pub to_edge : MediaType → Entry → Edge
to_edge m e = record {
  asset_a = e.asset_a;
  asset_b = e.asset_b;
  media_type = m;
  distance = e.distance;
}

-- A photo's row of the matrix; a wrong-length blob is dropped.
pub record PdqRow : Type 0 where
  pub asset_id : ℕ
  pub bits : Bytes

unfoldable pub to_row : PhotoSig → Option PdqRow
to_row p = elim p.bits [
  | none ↦ none
  | some b ↦
      if length b == pdq_bytes then some (record { asset_id = p.asset_id; bits = b }) else none
]

unfoldable pub valid_rows : List PhotoSig → List PdqRow
valid_rows [] = []
valid_rows (p ∷ ps) = elim (to_row p) [ none ↦ valid_rows ps | some r ↦ r ∷ valid_rows ps ]

unfoldable pub hit : ℕ → PdqRow → PdqRow → Option ℕ
hit t_match x y = let d = hamming y.bits x.bits in if leb d t_match then some d else none

unfoldable pub photo_pool : ℕ → PdqRow → List PdqRow → List Entry → List Entry
photo_pool t_match x [] best = best
photo_pool t_match x (y ∷ ys) best =
    photo_pool t_match x ys (consider x.asset_id y.asset_id (hit t_match x y) best)

unfoldable pub photo_targets : ℕ → List PdqRow → List PdqRow → List Entry → List Entry
photo_targets t_match [] pool best = best
photo_targets t_match (x ∷ xs) pool best =
    photo_targets t_match xs pool (photo_pool t_match x pool best)

-- The early returns on an empty set are what the loops give.
unfoldable pub match_photos : List PhotoSig → List PhotoSig → ℕ → List Edge
match_photos targets pool t_match =
    map (to_edge photo) (photo_targets t_match (valid_rows targets) (valid_rows pool) [])

-- The float operations of the video rules: `percent x` is x / 100.0, `ratio m c` is m / c and
-- `mean s c` is round(s / c) for two integers, the second not 0.
pub record Floats (F : Type 0) : Type 0 where
  pub le : F → F → Bool
  pub lt : F → F → Bool
  pub max_of : F → F → F
  pub min_of : F → F → F
  pub times : F → F → F
  pub percent : F → F
  pub distance : F → F → F
  pub ratio : ℕ → ℕ → F
  pub mean : ℕ → ℕ → ℕ

pub record VideoConfig (F : Type 0) : Type 0 where
  pub duration_tol_s : F
  pub duration_tol_pct : F
  pub frame_match_fraction : F
  pub min_frame_quality : ℕ
  pub min_comparable_frames : ℕ

pub record MatchConfig (F : Type 0) : Type 0 where
  pub t_photo_edit : ℕ
  pub t_match_video : ℕ
  pub video_config : VideoConfig F

-- The dict from a frame index to its frame: a later frame replaces an earlier one, in its place.
unfoldable pub set_frame : Frame → List Frame → List Frame
set_frame f [] = f ∷ []
set_frame f (g ∷ gs) = if g.frame_index == f.frame_index then f ∷ gs else g ∷ set_frame f gs

unfoldable pub frame_dict : List Frame → List Frame → List Frame
frame_dict [] dict = dict
frame_dict (f ∷ fs) dict = frame_dict fs (set_frame f dict)

unfoldable pub find_frame : ℕ → List Frame → Option Frame
find_frame i [] = none
find_frame i (f ∷ fs) = if f.frame_index == i then some f else find_frame i fs

pub record Votes : Type 0 where
  pub comparable : ℕ
  pub matching : ℕ
  pub dist_sum : ℕ

module _ {F : Type 0} (cfg : VideoConfig F) where
  unfoldable pub is_comparable : Frame → Frame → Bool
  is_comparable a b =
      not (ltb a.quality cfg.min_frame_quality || ltb b.quality cfg.min_frame_quality)
      && (length a.bits == pdq_bytes)
      && (length b.bits == pdq_bytes)

  unfoldable pub vote : ℕ → Frame → Option Frame → Votes → Votes
  vote t_match a none v = v
  vote t_match a (some b) v =
      if is_comparable a b
      then record {
        comparable = v.comparable + 1;
        matching = if leb (hamming a.bits b.bits) t_match then v.matching + 1 else v.matching;
        dist_sum = v.dist_sum + hamming a.bits b.bits;
      }
      else v

  unfoldable pub count_votes : ℕ → List Frame → List Frame → Votes → Votes
  count_votes t_match [] bs v = v
  count_votes t_match (a ∷ rest) bs v =
      count_votes t_match rest bs (vote t_match a (find_frame a.frame_index bs) v)

module _ {F : Type 0} (fl : Floats F) (cfg : VideoConfig F) where
  unfoldable pub durations_close : Option F → Option F → Bool
  durations_close none d2 = false
  durations_close (some d1) none = false
  durations_close (some d1) (some d2) =
      fl.le (fl.distance d1 d2) (
        fl.max_of cfg.duration_tol_s (fl.times (fl.percent cfg.duration_tol_pct) (fl.min_of d1 d2)))

  -- With no comparable frames and none asked for, the ratio divides by zero.
  unfoldable pub verdict : Votes → Option (Option ℕ)
  verdict v =
      if ltb v.comparable cfg.min_comparable_frames
      then some none
      else (if v.comparable == 0
          then none
          else (if fl.lt (fl.ratio v.matching v.comparable) cfg.frame_match_fraction
              then some none
              else some (some (fl.mean v.dist_sum v.comparable))))

  unfoldable pub video_pair_score : ℕ → VideoSig F → VideoSig F → Option (Option ℕ)
  video_pair_score t_match a b = verdict (
      count_votes cfg t_match (frame_dict a.frames []) (frame_dict b.frames [])
        (record { comparable = 0; matching = 0; dist_sum = 0 }))

  -- One comparison of the video loops: the self test and the durations come before the score.
  unfoldable pub score : ℕ → VideoSig F → VideoSig F → Option (Option ℕ)
  score t_match x y =
      if y.asset_id == x.asset_id
      then some none
      else (if durations_close x.duration_s y.duration_s
          then video_pair_score t_match x y
          else some none)

  unfoldable pub video_pool : ℕ → VideoSig F → List (VideoSig F) → List Entry → Option (List Entry)
  video_pool t_match x [] best = some best
  video_pool t_match x (y ∷ ys) best = elim (score t_match x y) [
    | none ↦ none
    | some s ↦ video_pool t_match x ys (consider x.asset_id y.asset_id s best)
  ]

  unfoldable pub video_targets :
      ℕ → List (VideoSig F) → List (VideoSig F) → List Entry → Option (List Entry)
  video_targets t_match [] pool best = some best
  video_targets t_match (x ∷ xs) pool best = elim (video_pool t_match x pool best) [
    | none ↦ none
    | some next ↦ video_targets t_match xs pool next
  ]

  unfoldable pub match_videos : List (VideoSig F) → List (VideoSig F) → ℕ → Option (List Edge)
  match_videos targets pool t_match = elim (video_targets t_match targets pool []) [
    | none ↦ none
    | some best ↦ some (map (to_edge video) best)
  ]

unfoldable pub find_matches :
    {F : Type 0} → Floats F → Signatures F → Signatures F → MatchConfig F → Option (List Edge)
find_matches fl targets pool config =
    elim (match_videos fl config.video_config targets.videos pool.videos config.t_match_video) [
      | none ↦ none
      | some edges ↦ some (match_photos targets.photos pool.photos config.t_photo_edit ++ edges)
    ]
