-- ===== src/Merge/Samples.antt =====
-- Merges of a few files.
use packrat.Prelude.{
  ◌+◌, ℕ, ◌≡◌, refl, ap, ◌≢◌, inl, inr, true, false, none, some, List, [], ◌∷◌, arith, length,
  length-append, All, Has,
}
use packrat.Merge.Disk.{
  FilePath, System, whole, read, part_of, part_suffix, same_path, exists, place_copy, copy_to,
  settle, verify, write, remove, hash_or_none, holds_hash, free_name, numbered,
}
use packrat.Merge.Disk.Names.{free_name_returns}
use packrat.Merge.Copy.{
  Item, World, Ignore, PathOps, Progress, new, dup_in_source, pending, new_out, copy_and_register,
  copy_items, copy_item, copy_hash, copy_class, new_item, copy_new, finish_item, register_or_mark,
  register, count_new, count_collision, upsert_instance, find_asset, insert_asset, max_asset,
  dest_ignored, any_pruned, basename,
}
use packrat.Merge.Copy.Safety.{merge-Stays}
use packrat.Merge.Copy.Resume.{Unchanged, resume_idempotent}
use packrat.Merge.Plan.{classify_items, classify_hash}
use packrat.Merge.Plan.Reps.{classify_items-one}

-- A disk where every call succeeds; a source file's content is its first character.
abbrev calm : System
calm = record {
  blake3 = λ c. c;
  target_of = λ rel. 68 ∷ rel;
  base_of = λ p. p;
  ext_of = λ p. [];
  shown = λ n. n ∷ [];
  makes_dirs = λ p. true;
  copy_of = λ rel. whole 7;
  removes = λ p. true;
  replaces = λ p. true;
}

abbrev open_rules : Ignore
open_rules = record {
  is_media = λ p. true;
  is_file_ignored = λ p. false;
  is_dir_pruned = λ p. false;
}

abbrev flat : PathOps
flat = record { segments_of = λ p. p ∷ []; parent_of = λ p. [] }

abbrev row : ℕ → ℕ → Item
row name h = record {
  rel = name ∷ [];
  mtime = some 5;
  content_hash = some h;
  classification = some new;
  rep_of_hash = none;
  dest_path = none;
  progress = pending;
}

-- The target of the first row is taken by another file.
abbrev before : World
before = record {
  files = record { path = 68 ∷ 97 ∷ []; content = some 3 } ∷ [];
  assets = [];
  instances = [];
  out = new_out;
}

abbrev rows : List Item
rows = row 97 7 ∷ row 98 7 ∷ []

-- A path of two characters is shorter than the suffix.
short_lasting : (t : FilePath) → 68 ∷ 97 ∷ [] ≢ part_of t
short_lasting t e = omega (arith, length-append {0} t part_suffix, ap length e)

there : read (68 ∷ 97 ∷ []) before.files ≡ some (some 3)
unfolding read same_path
there = refl

merge-Stays_example :
    read (68 ∷ 97 ∷ []) (copy_and_register calm open_rules flat 1 (λ i. false) rows before).0.files
    ≡ some (some 3)
merge-Stays_example =
    merge-Stays calm open_rules flat 1 (68 ∷ 97 ∷ []) (some 3) (λ i. false) rows before
      (there, short_lasting)

no_failure :
    All
      (λ it. it.progress ≢ Progress.error)
      (copy_and_register calm open_rules flat 1 (λ i. false) rows before).1
unfolding copy_and_register copy_items copy_item copy_hash copy_class new_item copy_new place_copy
    copy_to settle verify write remove read exists same_path hash_or_none holds_hash free_name
    numbered finish_item register_or_mark dest_ignored any_pruned basename count_new register
    count_collision upsert_instance insert_asset find_asset max_asset
no_failure = ((λ e. cc), ((λ e. cc), tt))

resume_idempotent_example :
    let done = copy_and_register calm open_rules flat 1 (λ i. false) rows before in
    let again = copy_and_register calm open_rules flat 1 (λ i. true) done.1 done.0 in
    Unchanged again.0 done.0 × (again.1 ≡ done.1)
resume_idempotent_example =
    resume_idempotent calm open_rules flat 1 (λ i. true) rows before no_failure

classify_items-one_example :
    (r : Item) × Has r (classify_items [] rows rows)
    × (r.content_hash ≡ some 7)
    × (r.classification ≡ some (classify_hash [] 7))
    × ((x : Item)
        → Has x (classify_items [] rows rows)
        → x.content_hash ≡ some 7
        → x.classification ≢ some dup_in_source
        → x.rel ≡ r.rel)
classify_items-one_example = classify_items-one [] rows 7 (row 98 7) (inr (inl refl)) refl

free_name_returns_example :
    (t : FilePath) × (free_name calm (length before.files + 1) 1 (68 ∷ 97 ∷ []) before.files
      ≡ some t)
    × (exists t before.files ≡ false)
free_name_returns_example = free_name_returns calm (68 ∷ 97 ∷ []) before.files (λ i j e. cc)
