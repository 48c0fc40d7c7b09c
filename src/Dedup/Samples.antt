-- ===== src/Dedup/Samples.antt =====
-- The matcher and the choice of a lead on small inputs. Floats are taken to be natural numbers there.
use packrat.Prelude.{
  map, false, ℕ, ◌+◌, ◌-◌, ◌*◌, ◌/◌, ◌≤◌, ◌≡◌, refl, inl, inr, true, none, some, List, [], ◌∷◌,
  arith, replicate, All, Has, ltb, leb, if◌then◌else◌,
}
use packrat.Dedup.Rank.{
  code_points, Numbers, Member, RankFields, Ranked, ranked, any_video, level_from,
  group_lead_and_level,
}
use packrat.Dedup.Rank.Lead.{code_points-IsOrder, Before, group_lead_first}
use packrat.Dedup.Matcher.{
  Bytes, PhotoSig, VideoSig, Frame, Floats, VideoConfig, Edge, hamming, popcount, xor, match_photos,
  match_videos, durations_close,
}
use packrat.Dedup.Matcher.Edges.{Joins, DistinctPairs}
use packrat.Dedup.Matcher.Photos.{PhotoPair, match_photos_sound, match_photos_complete}
use packrat.Dedup.Matcher.Videos.{VideoPair, match_videos_sound, match_videos_raises}

abbrev blob : ℕ → Bytes
blob b = b ∷ replicate 31 0

abbrev signed : ℕ → ℕ → PhotoSig
signed i b = record { asset_id = i; bits = some (blob b); quality = some 80 }

abbrev album : List PhotoSig
album = signed 4 3 ∷ signed 9 1 ∷ record { asset_id = 5; bits = none; quality = none } ∷ []

match_photos_sound_example :
    All (λ e. PhotoPair album album 10 e.asset_a e.asset_b e.distance) (match_photos album album 10)
    × DistinctPairs (match_photos album album 10)
match_photos_sound_example = match_photos_sound album album 10

one_bit : hamming (blob 1) (blob 3) ≤ 10
unfolding hamming popcount xor
one_bit = omega arith

match_photos_complete_example :
    (edge : Edge) × Has edge (match_photos album album 10)
    × Joins 4 9 edge
    × (edge.distance ≤ hamming (blob 1) (blob 3))
match_photos_complete_example =
    match_photos_complete album album 10 (signed 4 3) (signed 9 1) (blob 3) (blob 1) (inl refl)
      (inr (inl refl)) (refl, refl) (refl, refl) (λ e. omega (arith, e)) one_bit

abbrev naturals : Floats ℕ
naturals = record {
  le = leb;
  lt = ltb;
  max_of = λ x y. if leb x y then y else x;
  min_of = λ x y. if leb x y then x else y;
  times = λ x y. x * y;
  percent = λ x. x / 100;
  distance = λ x y. (x - y) + (y - x);
  ratio = λ m c. m / c;
  mean = λ s c. s / c;
}

abbrev asking : ℕ → VideoConfig ℕ
asking n = record {
  duration_tol_s = 1;
  duration_tol_pct = 5;
  frame_match_fraction = 1;
  min_frame_quality = 50;
  min_comparable_frames = n;
}

abbrev shot : Frame
shot = record { frame_index = 0; bits = blob 1; quality = 90 }

abbrev film : ℕ → List Frame → VideoSig ℕ
film i frames = record { asset_id = i; duration_s = some 60; frames = frames }

abbrev films : List (VideoSig ℕ)
films = film 1 (shot ∷ []) ∷ film 2 (shot ∷ []) ∷ []

match_videos_sound_example :
    (edges : List Edge) × (match_videos naturals (asking 1) films films 31 ≡ some edges)
    × All (λ e. VideoPair naturals (asking 1) films films 31 e.asset_a e.asset_b e.distance) edges
    × DistinctPairs edges
match_videos_sound_example = match_videos_sound naturals (asking 1) films films 31 (omega arith)

close_films : durations_close naturals (asking 0) (some 60) (some 60) ≡ true
unfolding durations_close
close_films = refl

abbrev dark_shot : Frame
dark_shot = record { frame_index = 0; bits = blob 1; quality = 20 }

match_videos_raises_example :
    match_videos naturals (asking 0) (film 1 (dark_shot ∷ []) ∷ []) (film 2 (shot ∷ []) ∷ []) 31
    ≡ none
match_videos_raises_example =
    match_videos_raises naturals (asking 0) (film 1 (dark_shot ∷ [])) (film 2 (shot ∷ [])) 31 refl
      refl close_films (omega arith, tt)

-- Ranks over natural numbers.
abbrev plain : Numbers ℕ
plain = record {
  order = code_points;
  whole = λ n. n;
  minus_one = 0;
  times = λ x y. x * y;
  over = λ n d. n / d;
  log_band = λ v t. v / (t + 1);
  weight_of = λ c. 1;
  tie_pct = 10;
  is_lossless = λ p. false;
  is_efficient = λ p. false;
  normcase = λ p. p;
}

abbrev copy_at : ℕ → ℕ → Member
copy_at i root = record { asset_id = i; path = 97 ∷ i ∷ []; root_id = root }

abbrev sized : ℕ → RankFields ℕ
sized i = record {
  is_video = false;
  width = some 40;
  height = some 30;
  size = some (100 + i);
  duration_s = none;
  codec = none;
}

group_lead_first_example :
    let all =
      map
        (ranked plain (any_video plain sized (copy_at 1 7 ∷ copy_at 2 8 ∷ [])) sized (some 7) false)
        (copy_at 1 7 ∷ copy_at 2 8 ∷ []) in
    (lead : Ranked ℕ) × Has lead all
    × (group_lead_and_level plain (copy_at 1 7 ∷ copy_at 2 8 ∷ []) sized (some 7) false
        ≡ some (lead.member.asset_id, level_from plain 0 lead.key lead.key all))
    × All (λ c. Before plain code_points-IsOrder c lead → ⊥) all
group_lead_first_example =
    group_lead_first plain code_points-IsOrder (copy_at 1 7) (copy_at 2 8 ∷ []) sized (some 7) false
