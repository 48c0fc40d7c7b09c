-- ===== src/Merge/Plan.antt =====
-- The plan of a merge, _build_plan, _classify_hash and _dry_run of src/packrat/jobs/merge.py. The
-- candidates are what the enumeration of the source gives; reading and hashing one is a parameter,
-- none where it raises.
pub mod Reps
use packrat.Prelude.{
  ℕ, zero, suc, ◌+◌, ◌-◌, ◌*◌, ◌/◌, ◌%◌, ◌≤◌, ◌<◌, min, max, ◌≡◌, refl, sym, ap, ◌∙◌, ◌≢◌, ◌⊎◌, inl,
  inr, Bool, true, false, not, ◌&&◌, ◌||◌, Option, none, some, List, [], ◌∷◌, ◌++◌, map, arith,
  length, All, All-imp, All-snoc, All-append, All-at, Has, ltb, leb, ◌==◌, if◌then◌else◌,
  Bool-cases, Option-cases, ==_iff, ==_false, leb→le,
}
use packrat.Merge.Disk.{FilePath, same_path}
use packrat.Merge.Copy.{
  Item, Asset, Progress, pending, error, Classification, new, exact_known, trashed, dup_in_source,
  find_asset, Tally, Ignore, PathOps, new_out, dest_ignored, note_ignored,
}

pub record Candidate : Type 0 where
  pub rel : FilePath
  pub mtime : Option ℕ

unfoldable pub find_item : FilePath → List Item → Option Item
find_item rel [] = none
find_item rel (it ∷ rest) = if same_path it.rel rel then some it else find_item rel rest

unfoldable pub is_error : Progress → Bool
is_error Progress.error = true
is_error Progress.pending = false
is_error Progress.copied = false
is_error Progress.registered = false
is_error Progress.copied_unindexed = false
is_error Progress.skipped = false

unfoldable pub is_some : Option ℕ → Bool
is_some none = false
is_some (some h) = true

-- A row that an earlier pass hashed, or could not read.
unfoldable pub is_hashed : Option Item → Bool
is_hashed none = false
is_hashed (some it) = is_some it.content_hash || is_error it.progress

unfoldable pub row_of : Candidate → Option ℕ → Item
row_of cand h = record {
  rel = cand.rel;
  mtime = cand.mtime;
  content_hash = h;
  classification = none;
  rep_of_hash = none;
  dest_path = none;
  progress = if is_some h then pending else error;
}

-- The upsert keeps the columns that it does not name.
unfoldable pub upsert_item : Item → List Item → List Item
upsert_item row [] = row ∷ []
upsert_item row (it ∷ rest) =
    if same_path it.rel row.rel
    then record it { mtime = row.mtime; content_hash = row.content_hash; progress = row.progress }
      ∷ rest
    else it ∷ upsert_item row rest

unfoldable pub hash_candidate : (FilePath → Option ℕ) → Candidate → List Item → List Item
hash_candidate hash_file cand items =
    if is_hashed (find_item cand.rel items)
    then items
    else upsert_item (row_of cand (hash_file cand.rel)) items

-- Phase 1; the prior rows are read once, and no candidate comes twice.
unfoldable pub hash_candidates : (FilePath → Option ℕ) → List Candidate → List Item → List Item
hash_candidates hash_file [] items = items
hash_candidates hash_file (cand ∷ rest) items =
    hash_candidates hash_file rest (hash_candidate hash_file cand items)

unfoldable pub path_lt : FilePath → FilePath → Bool
path_lt [] [] = false
path_lt [] (d ∷ ds) = true
path_lt (c ∷ cs) [] = false
path_lt (c ∷ cs) (d ∷ ds) = ltb c d || ((c == d) && path_lt cs ds)

unfoldable pub time_of : Option ℕ → ℕ
time_of none = 0
time_of (some t) = t

-- The order of the key (mtime, rel).
unfoldable pub earlier : Item → Item → Bool
earlier a b =
    ltb (time_of a.mtime) (time_of b.mtime)
    || ((time_of a.mtime == time_of b.mtime) && path_lt a.rel b.rel)

unfoldable pub has_hash : ℕ → Option ℕ → Bool
has_hash h none = false
has_hash h (some k) = k == h

unfoldable pub first_of : Item → Option Item → Item
first_of it none = it
first_of it (some best) = if earlier best it then best else it

-- The first item of a group in the order of the key, its representative.
unfoldable pub rep_of : ℕ → List Item → Option Item
rep_of h [] = none
rep_of h (it ∷ rest) =
    let best = rep_of h rest in if has_hash h it.content_hash then some (first_of it best) else best

unfoldable pub class_of : Option Asset → Classification
class_of none = new
class_of (some a) = if a.is_trashed then trashed else exact_known

unfoldable pub classify_hash : List Asset → ℕ → Classification
classify_hash assets h = class_of (find_asset h assets)

unfoldable pub is_rep : FilePath → Option Item → Bool
is_rep rel none = false
is_rep rel (some best) = same_path best.rel rel

-- A row's class; the rows are told apart by their path.
unfoldable pub classify_as : List Asset → List Item → Option ℕ → Item → Item
classify_as assets items none it = record it { classification = none; rep_of_hash = none }
classify_as assets items (some h) it =
    if is_rep it.rel (rep_of h items)
    then record it { classification = some (classify_hash assets h); rep_of_hash = none }
    else record it { classification = some dup_in_source; rep_of_hash = some h }

-- Phase 2, written back in one transaction with the run's move to `copying`.
unfoldable pub classify_items : List Asset → List Item → List Item → List Item
classify_items assets items [] = []
classify_items assets items (it ∷ rest) =
    classify_as assets items it.content_hash it ∷ classify_items assets items rest

unfoldable pub build_plan :
    (FilePath → Option ℕ) → List Asset → List Candidate → List Item → List Item
build_plan hash_file assets cands items =
    let hashed = hash_candidates hash_file cands items in classify_items assets hashed hashed

-- The preview: one pass over the hashed candidates, with the hashes seen so far.
unfoldable pub seen : ℕ → List ℕ → Bool
seen h [] = false
seen h (k ∷ ks) = (k == h) || seen h ks

module _ (ig : Ignore) (ops : PathOps) (target_of : FilePath → FilePath) where
  unfoldable pub preview_new : FilePath → Tally → Tally
  preview_new rel out =
      let counted = record out { new_count = out.new_count + 1 } in
      let projected = target_of rel in
      if dest_ignored ig (ops.segments_of projected)
      then note_ignored ops projected (record counted { unindexed = out.unindexed + 1 })
      else counted

  unfoldable pub preview_class : Classification → FilePath → Tally → Tally
  preview_class Classification.new rel out = preview_new rel out
  preview_class Classification.exact_known rel out = record out {
    exact_count = out.exact_count + 1;
  }
  preview_class Classification.trashed rel out = record out {
    trashed_count = out.trashed_count + 1;
  }
  preview_class Classification.dup_in_source rel out = out
  preview_class Classification.failed rel out = out

  unfoldable pub preview :
      (FilePath → Option ℕ) → List Asset → List ℕ → List Candidate → Tally → Tally
  preview hash_file assets reps [] out = out
  preview hash_file assets reps (cand ∷ rest) out = elim (hash_file cand.rel) [
    | none ↦ preview hash_file assets reps rest (record out { errors = out.errors + 1 })
    | some h ↦
        if seen h reps
        then preview hash_file assets reps rest (record out { dup_count = out.dup_count + 1 })
        else preview hash_file assets (h ∷ reps) rest
            (preview_class (classify_hash assets h) cand.rel out)
  ]

  unfoldable pub dry_run : (FilePath → Option ℕ) → List Asset → List Candidate → Tally
  dry_run hash_file assets cands = preview hash_file assets [] cands new_out
