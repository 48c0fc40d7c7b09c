-- ===== src/Dedup/Matcher/Videos.antt =====
-- Which edges match_videos returns, and when it raises.
use packrat.Prelude.{
  ℕ, ◌<◌, ◌≡◌, refl, ap, ◌⊎◌, inl, inr, true, false, Option, none, some, List, [], ◌∷◌, map, arith,
  All, All-imp, Has, ltb, ◌==◌, Bool-cases,
}
use packrat.Dedup.Matcher.{
  Floats, VideoConfig, VideoSig, Frame, Votes, Edge, Entry, video, durations_close,
  video_pair_score, verdict, is_comparable, vote, find_frame, set_frame, count_votes, frame_dict,
  score, video_pool, video_targets, match_videos, to_edge,
}
use packrat.Dedup.Matcher.Loops.{
  fold_pool, fold_targets, Scored, fold_targets-Each, fold_targets-Distinct,
}
use packrat.Dedup.Matcher.Edges.{DistinctPairs, to_edge-DistinctPairs, to_edge-All}

-- The score, where it does not raise.
abbrev join : Option (Option ℕ) → Option ℕ
join none = none
join (some s) = s

join-some : (o : Option (Option ℕ)) (d : ℕ) → join o ≡ some d → o ≡ some (some d)
join-some none d h = cc
join-some (some s) d h = ap some h

module _ {F : Type 0} (fl : Floats F) (cfg : VideoConfig F) where
  abbrev video_id : VideoSig F → ℕ
  video_id v = v.asset_id

  abbrev scored : ℕ → VideoSig F → VideoSig F → Option ℕ
  scored t x y = join (score fl cfg t x y)

  verdict_returns :
      (v : Votes) → 0 < cfg.min_comparable_frames → (s : Option ℕ) × (verdict fl cfg v ≡ some s)
  unfolding verdict
  verdict_returns v asked = elim (Bool-cases (ltb v.comparable cfg.min_comparable_frames)) [
    | inl few ↦ rw few (none, refl)
    | inr enough ↦
        let positive : (v.comparable == 0) ≡ false = ground arith in
        elim (Bool-cases (fl.lt (fl.ratio v.matching v.comparable) cfg.frame_match_fraction)) [
          | inl low ↦ rw (enough, positive, low) (none, refl)
          | inr high ↦ rw (enough, positive, high) (some (fl.mean v.dist_sum v.comparable), refl)
        ]
  ]

  score_returns :
      (t : ℕ) (x y : VideoSig F)
      → 0 < cfg.min_comparable_frames
      → score fl cfg t x y ≡ some (scored t x y)
  unfolding score video_pair_score
  score_returns t x y asked = elim (Bool-cases (y.asset_id == x.asset_id)) [
    | inl self ↦ rw self refl
    | inr pair ↦ elim (Bool-cases (durations_close fl cfg x.duration_s y.duration_s)) [
      | inl close ↦
          let (s, e) =
            verdict_returns
              (count_votes cfg t (frame_dict x.frames []) (frame_dict y.frames [])
                (record { comparable = 0; matching = 0; dist_sum = 0 }))
              asked in
          rw (pair, close, e) refl
      | inr far ↦ rw (pair, far) refl
    ]
  ]

  video_pool-fold :
      (t : ℕ) (x : VideoSig F) (ys : List (VideoSig F)) (best : List Entry)
      → 0 < cfg.min_comparable_frames
      → video_pool fl cfg t x ys best ≡ some (fold_pool video_id (scored t) x ys best)
  unfolding video_pool fold_pool
  video_pool-fold t x [] best asked = refl
  video_pool-fold t x (y ∷ ys) best asked =
      rw (score_returns t x y asked, video_pool) (video_pool-fold t x ys _ asked)

  video_targets-fold :
      (t : ℕ) (xs pool : List (VideoSig F)) (best : List Entry)
      → 0 < cfg.min_comparable_frames
      → video_targets fl cfg t xs pool best ≡ some (fold_targets video_id (scored t) xs pool best)
  unfolding video_targets fold_targets
  video_targets-fold t [] pool best asked = refl
  video_targets-fold t (x ∷ xs) pool best asked =
      rw (video_pool-fold t x pool best asked, video_targets) (video_targets-fold t xs pool _ asked)

  abbrev pub VideoPair : List (VideoSig F) → List (VideoSig F) → ℕ → ℕ → ℕ → ℕ → Type 0
  VideoPair targets pool t a b d =
      (a < b)
      × ((x : VideoSig F) × (y : VideoSig F) × Has x targets
          × Has y pool
          × (durations_close fl cfg x.duration_s y.duration_s ≡ true)
          × (video_pair_score fl cfg t x y ≡ some (some d))
          × (((x.asset_id ≡ a) × (y.asset_id ≡ b)) ⊎ ((y.asset_id ≡ a) × (x.asset_id ≡ b))))

  score-some :
      (t : ℕ) (x y : VideoSig F) (d : ℕ)
      → score fl cfg t x y ≡ some (some d)
      → (durations_close fl cfg x.duration_s y.duration_s ≡ true)
        × (video_pair_score fl cfg t x y ≡ some (some d))
  unfolding score
  score-some t x y d = elim (Bool-cases (y.asset_id == x.asset_id)) [
    | inl self ↦ rw self (λ h. cc)
    | inr pair ↦ elim (Bool-cases (durations_close fl cfg x.duration_s y.duration_s)) [
      | inl close ↦ rw (pair, close) (λ h. (refl, h))
      | inr far ↦ rw (pair, far) (λ h. cc)
    ]
  ]

  Scored-VideoPair :
      (targets pool : List (VideoSig F)) (t a b d : ℕ)
      → Scored video_id (scored t) targets pool a b d
      → VideoPair targets pool t a b d
  Scored-VideoPair targets pool t a b d (lt, (x, y, on, in_pool, e, ids)) =
      let (close, same) = score-some t x y d (join-some _ d e) in
      (lt, (x, y, on, in_pool, close, same, ids))

  -- When at least one comparable frame is asked for, the video matcher returns; and each of its
  -- edges joins, smaller id first, a target and a member of the pool whose durations are close and
  -- whose frames vote for a match at that distance; no two edges join the same pair.
  pub match_videos_sound :
      (targets pool : List (VideoSig F)) (t : ℕ)
      → 0 < cfg.min_comparable_frames
      → (edges : List Edge) × (match_videos fl cfg targets pool t ≡ some edges)
        × All (λ e. VideoPair targets pool t e.asset_a e.asset_b e.distance) edges
        × DistinctPairs edges
  unfolding match_videos
  match_videos_sound targets pool t asked =
      rw (video_targets-fold t targets pool [] asked, match_videos)
        (
          map (to_edge video) (fold_targets video_id (scored t) targets pool []),
          refl,
          to_edge-All (VideoPair targets pool t) video _ (
              All-imp _ (λ e. Scored-VideoPair targets pool t e.asset_a e.asset_b e.distance)
                (fold_targets-Each video_id (scored t) targets pool targets [] (λ z m. m) tt)),
          to_edge-DistinctPairs video _
              (fold_targets-Distinct video_id (scored t) targets pool [] tt),
        )

  -- A frame that is too poor to be compared.
  abbrev pub Poor : Frame → Type 0
  Poor f = f.quality < cfg.min_frame_quality

  set_frame-Poor :
      (f : Frame) (dict : List Frame) → Poor f → All Poor dict → All Poor (set_frame f dict)
  unfolding set_frame
  set_frame-Poor f [] poor rest = (poor, tt)
  set_frame-Poor f (g ∷ gs) poor rest = elim (Bool-cases (g.frame_index == f.frame_index)) [
    | inl same ↦ rw same (poor, rest.1)
    | inr other ↦ rw other (rest.0, set_frame-Poor f gs poor rest.1)
  ]

  frame_dict-Poor :
      (fs dict : List Frame) → All Poor fs → All Poor dict → All Poor (frame_dict fs dict)
  unfolding frame_dict
  frame_dict-Poor [] dict poor rest = rest
  frame_dict-Poor (f ∷ fs) dict poor rest =
      frame_dict-Poor fs (set_frame f dict) poor.1 (set_frame-Poor f dict poor.0 rest)

  vote-Poor : (t : ℕ) (a : Frame) (o : Option Frame) (v : Votes) → Poor a → vote cfg t a o v ≡ v
  unfolding vote is_comparable
  vote-Poor t a none v poor = refl
  vote-Poor t a (some b) v poor =
      let low : ltb a.quality cfg.min_frame_quality ≡ true = ground arith in rw low refl

  count_votes-Poor :
      (t : ℕ) (fs bs : List Frame) (v : Votes) → All Poor fs → count_votes cfg t fs bs v ≡ v
  unfolding count_votes
  count_votes-Poor t [] bs v poor = refl
  count_votes-Poor t (a ∷ rest) bs v poor =
      rw (vote-Poor t a (find_frame a.frame_index bs) v poor.0)
        (count_votes-Poor t rest bs v poor.1)

  no_votes :
      cfg.min_comparable_frames ≡ 0
      → verdict fl cfg (record { comparable = 0; matching = 0; dist_sum = 0 }) ≡ none
  unfolding verdict
  no_votes e = simp e

  score_raises :
      (x y : VideoSig F) (t : ℕ)
      → cfg.min_comparable_frames ≡ 0
      → (y.asset_id == x.asset_id) ≡ false
      → durations_close fl cfg x.duration_s y.duration_s ≡ true
      → All Poor x.frames
      → score fl cfg t x y ≡ none
  unfolding score video_pair_score
  score_raises x y t none_asked other close poor =
      rw
        (
          other,
          close,
          count_votes-Poor t (frame_dict x.frames []) (frame_dict y.frames []) _
              (frame_dict-Poor x.frames [] poor tt),
        )
        (no_votes none_asked)

  -- When no comparable frame is asked for, a video whose sampled frames are all below the quality
  -- that is asked for, and another one whose duration is close, whatever its frames are, make the
  -- matcher divide by zero.
  pub match_videos_raises :
      (x y : VideoSig F) (t : ℕ)
      → cfg.min_comparable_frames ≡ 0
      → (y.asset_id == x.asset_id) ≡ false
      → durations_close fl cfg x.duration_s y.duration_s ≡ true
      → All Poor x.frames
      → match_videos fl cfg (x ∷ []) (y ∷ []) t ≡ none
  unfolding match_videos video_targets video_pool
  match_videos_raises x y t none_asked other close poor =
      rw (score_raises x y t none_asked other close poor, video_targets, video_pool, match_videos)
        refl
