-- ===== src/Scan/Samples.antt =====
-- A small root: one folder with a photo, one photo beside it, and one row of the catalogue.
use packrat.Prelude.{
  ℕ, suc, max, ◌+◌, ◌*◌, ◌≤◌, List, arith, length, ◌≡◌, refl, inl, true, false, some, [], ◌∷◌, All,
  Has,
}
use packrat.Paths.{FilePath, join, ends_sep}
use packrat.Dedup.Matcher.{photo}
use packrat.Scan.Walk.{
  Stat, Entries, nothing, folder, file, IgnoreSet, Candidate, Enumeration, is_suppressed, suppress,
  is_junk_dirent, enumerate_root,
}
use packrat.Scan.Walk.Drive.{suppress-no_effect}
use packrat.Scan.Walk.Covered.{Tracked}
use packrat.Scan.Known.{Known, set_known, load_existing_instances, plan_moves}
use packrat.Scan.Known.Moves.{IsMove, Separate, plan_moves-IsMove}
use packrat.Scan.Catalogue.{Catalogue, Fingerprint, resolve_and_persist}
use packrat.Scan.Catalogue.Rows.{Sound}
use packrat.Scan.Catalogue.Resolve.{Recorded, resolve_and_persist-Sound}
use packrat.Scan.Pipeline.{
  Producer, ready, putting, waiting, admits, repeat, Pipeline, Step, Reach, started,
}
use packrat.Scan.Pipeline.Budget.{everywhere, buffered, unadmitted, pipeline_bounds}
use packrat.Scan.Pipeline.Stuck.{Dead, pipeline_stalls}
use packrat.Scan.Pass.{sort_candidates, gone_rows}
use packrat.Scan.Pass.Safe.{scan-keeps}

abbrev same_case : ℕ → ℕ
same_case c = c

abbrev all_media : IgnoreSet
all_media = record {
  is_media = λ name. true;
  is_file_ignored = λ rel. false;
  is_dir_pruned = λ rel. false;
}

abbrev plain_stat : Stat
plain_stat = record { size = 5; mtime = 9; is_hidden = false; is_system = false }

-- "r", with the folder "d", which holds "b", and the photo "a".
abbrev r_root : FilePath
r_root = 114 ∷ []

abbrev tree : Entries
tree =
    folder (100 ∷ []) (file (98 ∷ []) (some plain_stat) nothing)
      (file (97 ∷ []) (some plain_stat) nothing)

abbrev empty_walk : Enumeration
empty_walk = record { candidates = []; suppressed = []; root_offline = false }

-- The drive "/" is suppressed, and "/a" is not.
suppress-no_effect_example :
    is_suppressed same_case
      (suppress same_case all_media (47 ∷ []) empty_walk)
      (join (47 ∷ []) (97 ∷ []))
    ≡ is_suppressed same_case empty_walk (join (47 ∷ []) (97 ∷ []))
unfolding ends_sep
suppress-no_effect_example =
    suppress-no_effect same_case all_media (47 ∷ []) 97 [] empty_walk refl refl

-- A row for "r/x/a", which is gone, and a candidate "r/y/a" of the same size.
abbrev old_row : Known
old_row = record {
  fid = 1;
  path = 114 ∷ 47 ∷ 120 ∷ 47 ∷ 97 ∷ [];
  size = 5;
  mtime = some 9;
  asset_id = 1;
  undecodable = false;
  media_type = photo;
  is_trashed = false;
  has_phash = true;
  has_vphash = false;
}

abbrev moved_file : Candidate
moved_file = record {
  path = 114 ∷ 47 ∷ 121 ∷ 47 ∷ 97 ∷ [];
  rel = (121 ∷ []) ∷ (97 ∷ []) ∷ [];
  size = 5;
  mtime = 9;
}

abbrev moved_walk : Enumeration
moved_walk = record { candidates = moved_file ∷ []; suppressed = []; root_offline = false }

plan_moves-IsMove_example :
    All
      (IsMove same_case (old_row ∷ []) moved_walk 2)
      (plan_moves same_case (old_row ∷ []) moved_walk 2)
    × Separate same_case (plan_moves same_case (old_row ∷ []) moved_walk 2)
plan_moves-IsMove_example = plan_moves-IsMove same_case (old_row ∷ []) moved_walk 2

abbrev empty_catalogue : Catalogue
empty_catalogue = record { assets = []; instances = []; needs_dedup = [] }

abbrev fresh_photo : Fingerprint
fresh_photo = record {
  media_type = photo;
  content_hash = 77;
  undecodable = false;
  phash_bits = some (1 ∷ []);
  frames = [];
}

empty_catalogue-Sound : Sound empty_catalogue
empty_catalogue-Sound = (tt, tt, tt, tt)

resolve_and_persist-Sound_example :
    Sound (resolve_and_persist 3 moved_file fresh_photo false 4 empty_catalogue).0
    × Recorded 3 moved_file 77
        (resolve_and_persist 3 moved_file fresh_photo false 4 empty_catalogue).0
resolve_and_persist-Sound_example =
    resolve_and_persist-Sound 3 moved_file 4 fresh_photo false empty_catalogue empty_catalogue-Sound

-- The row of "r/d/b", which the tree still has.
abbrev live_row : Known
live_row = record old_row { path = 114 ∷ 47 ∷ 100 ∷ 47 ∷ 98 ∷ [] }

tree_plain : ends_sep r_root ≡ false
unfolding ends_sep
tree_plain = refl

live_row-Tracked : Tracked all_media r_root [] tree live_row.path
unfolding join ends_sep is_junk_dirent
live_row-Tracked = inl (((100, [], refl), refl), inl (refl, refl, refl, refl))

live_row_known : Has live_row (load_existing_instances same_case (live_row ∷ []) [])
unfolding load_existing_instances set_known
live_row_known = inl refl

scan-keeps_example :
    (en : Enumeration) × (enumerate_root same_case all_media r_root (some tree) ≡ some en)
    × ¬ (
        Has live_row (
          gone_rows same_case
            (sort_candidates same_case false 2
              (load_existing_instances same_case (live_row ∷ []) [])
              en).seen_fids
            en
            (load_existing_instances same_case (live_row ∷ []) [])))
scan-keeps_example =
    scan-keeps same_case all_media refl r_root tree false 2 (live_row ∷ []) live_row tree_plain
      live_row-Tracked live_row_known

-- The photos 1 and 2, two producers and one consumer; the first photo was read and admitted.
abbrev one_admitted : Pipeline
one_admitted = record {
  remaining = 2 ∷ [];
  producers = putting 1 3 ∷ ready ∷ [];
  read_q = [];
  consumers = waiting ∷ [];
  inflight = 3;
  result_q = [];
  recorded = [];
}

one_admitted_reached : Reach 10 4 (started 2 1 (1 ∷ 2 ∷ [])) one_admitted
unfolding started repeat admits
one_admitted_reached =
    let others : List Producer = ready ∷ [] in
    let taken = Reach.and_then _ _ Reach.here (Step.take [] others 1 (2 ∷ []) refl refl) in
    let loaded = Reach.and_then _ _ taken (Step.read [] others 1 3 refl (omega arith)) in
    Reach.and_then _ _ loaded (Step.acquire [] others 1 3 refl refl)

pipeline_bounds_example :
    (everywhere one_admitted ≡ 2)
    × (one_admitted.inflight ≡ buffered one_admitted)
    × (one_admitted.inflight ≤ max 10 4)
    × (buffered one_admitted + unadmitted one_admitted ≤ max 10 4 + 2 * 4)
pipeline_bounds_example = pipeline_bounds 10 4 2 1 (1 ∷ 2 ∷ []) one_admitted one_admitted_reached

pipeline_stalls_example :
    (s : Pipeline) × Reach 10 4 (started 1 1 (1 ∷ 2 ∷ [])) s
    × Dead 10 4 s
    × (suc (length s.recorded) ≡ 2)
pipeline_stalls_example = pipeline_stalls 10 4 1 (2 ∷ [])
