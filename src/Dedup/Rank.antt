-- ===== src/Dedup/Rank.antt =====
-- The choice of the copy that a group of near-duplicates keeps: src/packrat/jobs/dedup_rank.py. A part
-- of a ranking key is of a type with Python's comparison of numbers; the float operations, the
-- sets of file extensions, os.path.normcase and the codec weights are parameters.
pub mod Lead
use packrat.Prelude.{
  ℕ, zero, suc, ◌+◌, ◌-◌, ◌*◌, ◌/◌, ◌%◌, ◌≤◌, ◌<◌, min, max, ◌≡◌, refl, sym, ap, ◌∙◌, ◌≢◌, ◌⊎◌, inl,
  inr, Bool, true, false, not, ◌&&◌, ◌||◌, Option, none, some, List, [], ◌∷◌, ◌++◌, map, arith,
  length, take, All, All-imp, All-snoc, All-append, All-at, Has, ltb, leb, ◌==◌, if◌then◌else◌,
  Bool-cases, Option-cases, ==_iff, ==_false, leb→le,
}
pub use packrat.Paths.{FilePath}

pub record Order (K : Type 0) : Type 0 where
  pub lt : K → K → Bool
  pub eq : K → K → Bool

-- Python's order of tuples and of strings.
unfoldable pub lex_lt : {K : Type 0} → Order K → List K → List K → Bool
lex_lt o [] [] = false
lex_lt o [] (y ∷ ys) = true
lex_lt o (x ∷ xs) [] = false
lex_lt o (x ∷ xs) (y ∷ ys) = if o.eq x y then lex_lt o xs ys else o.lt x y

unfoldable pub lex_eq : {K : Type 0} → Order K → List K → List K → Bool
lex_eq o [] [] = true
lex_eq o [] (y ∷ ys) = false
lex_eq o (x ∷ xs) [] = false
lex_eq o (x ∷ xs) (y ∷ ys) = o.eq x y && lex_eq o xs ys

abbrev pub code_points : Order ℕ
code_points = record { lt = ltb; eq = λ x y. x == y }

-- A row of file_instances, with its asset.
pub record Member : Type 0 where
  pub asset_id : ℕ
  pub path : FilePath
  pub root_id : ℕ

-- The metadata of an asset; for an asset without any, every field is none.
pub record RankFields (K : Type 0) : Type 0 where
  pub is_video : Bool
  pub width : Option ℕ
  pub height : Option ℕ
  pub size : Option ℕ
  pub duration_s : Option K
  pub codec : Option FilePath

-- What the keys need: `whole n` is the number n, `over n d` is n / d, `log_band v t` is
-- round(log(v) / log(1 + t / 100)), and `weight_of` looks up the lowered name of a codec.
pub record Numbers (K : Type 0) : Type 0 where
  pub order : Order K
  pub whole : ℕ → K
  pub minus_one : K
  pub times : K → K → K
  pub over : ℕ → K → K
  pub log_band : K → K → K
  pub weight_of : FilePath → K
  pub tie_pct : K
  pub is_lossless : FilePath → Bool
  pub is_efficient : FilePath → Bool
  pub normcase : FilePath → FilePath

abbrev pub or_zero : Option ℕ → ℕ
or_zero none = 0
or_zero (some n) = n

abbrev pub or_empty : Option FilePath → FilePath
or_empty none = []
or_empty (some t) = t

unfoldable pub pref_rank : Bool → Bool → ℕ
pref_rank true prefer_internal = if prefer_internal then 0 else 1
pref_rank false prefer_internal = if prefer_internal then 1 else 0

unfoldable pub is_external : Option ℕ → Member → Bool
is_external none m = false
is_external (some root) m = not (m.root_id == root)

-- A member with its key, its side and its preference.
pub record Ranked (K : Type 0) : Type 0 where
  pub member : Member
  pub key : List K
  pub is_ext : Bool
  pub pref : ℕ

-- What the lead was decided by: the shortest prefix of the key, of that many parts, or a tie.
pub data Level : Type 0 where
  prefix : ℕ → Level
  preference_tiebreak path_tiebreak : Level

module _ {K : Type 0} (num : Numbers K) where
  unfoldable pub photo_format_rank : FilePath → ℕ
  photo_format_rank path =
      if num.is_lossless path then 2 else (if num.is_efficient path then 1 else 0)

  unfoldable pub pixels : RankFields K → K
  pixels r = num.whole (or_zero r.width * or_zero r.height)

  unfoldable pub photo_lead_key : Member → RankFields K → List K
  photo_lead_key m r =
      pixels r ∷ num.whole (photo_format_rank m.path) ∷ num.whole (or_zero r.size) ∷ []

  -- A duration that is missing, or not above zero, counts as none.
  unfoldable pub effective_bitrate : Option ℕ → Option K → K → K
  effective_bitrate none duration weight = num.whole 0
  effective_bitrate (some zero) duration weight = num.whole 0
  effective_bitrate (some (suc n)) none weight = num.times (num.whole (suc n)) weight
  effective_bitrate (some (suc n)) (some d) weight =
      if num.order.lt (num.whole 0) d
      then num.times (num.over (suc n) d) weight
      else num.times (num.whole (suc n)) weight

  unfoldable pub band : K → K → K
  band value tie =
      if num.order.lt (num.whole 0) value && num.order.lt (num.whole 0) tie
      then num.log_band value tie
      else num.minus_one

  unfoldable pub video_lead_key : RankFields K → List K
  video_lead_key r =
      let weight = num.weight_of (or_empty r.codec) in
      let eff = effective_bitrate r.size r.duration_s weight in
      pixels r ∷ band eff num.tie_pct ∷ weight ∷ eff ∷ []

  unfoldable pub any_video : (ℕ → RankFields K) → List Member → Bool
  any_video rank [] = false
  any_video rank (m ∷ ms) = (rank m.asset_id).is_video || any_video rank ms

  unfoldable pub lead_key : Bool → (ℕ → RankFields K) → Member → List K
  lead_key video rank m =
      if video then video_lead_key (rank m.asset_id) else photo_lead_key m (rank m.asset_id)

  unfoldable pub ranked : Bool → (ℕ → RankFields K) → Option ℕ → Bool → Member → Ranked K
  ranked video rank root prefer_internal m = record {
    member = m;
    key = lead_key video rank m;
    is_ext = is_external root m;
    pref = pref_rank (is_external root m) prefer_internal;
  }

  unfoldable pub outranks : Ranked K → Ranked K → Bool
  outranks c b =
      if lex_eq num.order c.key b.key then ltb b.pref c.pref else lex_lt num.order b.key c.key

  unfoldable pub comes_first : Ranked K → Ranked K → Bool
  comes_first c b = lex_lt code_points (num.normcase c.member.path) (num.normcase b.member.path)

  -- The test of the loop: c takes the place of the best so far.
  unfoldable pub beats : Ranked K → Ranked K → Bool
  beats c b =
      outranks c b || ((lex_eq num.order c.key b.key && (c.pref == b.pref)) && comes_first c b)

  unfoldable pub best_of : Ranked K → List (Ranked K) → Ranked K
  best_of best [] = best
  best_of best (c ∷ rest) = best_of (if beats c best then c else best) rest

  unfoldable pub count_prefix : ℕ → List K → List (Ranked K) → ℕ
  count_prefix n key [] = 0
  count_prefix n key (c ∷ rest) =
      (if lex_eq num.order (take n c.key) (take n key) then 1 else 0) + count_prefix n key rest

  -- Do the members that tie with the lead on the whole key stand on this side?
  unfoldable pub has_tied : Bool → List K → List (Ranked K) → Bool
  has_tied ext key [] = false
  has_tied ext key (c ∷ rest) =
      (lex_eq num.order c.key key && (if ext then c.is_ext else not c.is_ext))
      || has_tied ext key rest

  unfoldable pub tie_level : List K → List (Ranked K) → Level
  tie_level key all =
      if has_tied true key all && has_tied false key all then preference_tiebreak else path_tiebreak

  -- The depths from `done` parts on; `left` is the rest of the lead's key.
  unfoldable pub level_from : ℕ → List K → List K → List (Ranked K) → Level
  level_from done [] key all = tie_level key all
  level_from done (k ∷ left) key all =
      if count_prefix (done + 1) key all == 1
      then prefix (done + 1)
      else level_from (done + 1) left key all

  unfoldable pub group_lead_and_level :
      List Member → (ℕ → RankFields K) → Option ℕ → Bool → Option (ℕ × Level)
  group_lead_and_level [] rank root prefer_internal = none
  group_lead_and_level (m ∷ ms) rank root prefer_internal =
      let video = any_video rank (m ∷ ms) in
      let all = map (ranked video rank root prefer_internal) (m ∷ ms) in
      let lead =
        best_of (ranked video rank root prefer_internal m)
          (map (ranked video rank root prefer_internal) ms) in
      some (lead.member.asset_id, level_from 0 lead.key lead.key all)
