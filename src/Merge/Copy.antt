-- ===== src/Merge/Copy.antt =====
-- The copy phase of a merge, _copy_and_register of src/packrat/jobs/merge.py, with the catalogue's
-- tables assets and file_instances. The ignore rules are an interface, and so are the paths'
-- segments below the root and the parent folder of a path. Writing to the database and probing the
-- metadata of a copied file are taken not to raise.
pub mod Safety
pub mod Resume
use packrat.Prelude.{
  ℕ, zero, suc, ◌+◌, ◌-◌, ◌*◌, ◌/◌, ◌%◌, ◌≤◌, ◌<◌, min, max, ◌≡◌, refl, sym, ap, ◌∙◌, ◌≢◌, ◌⊎◌, inl,
  inr, Bool, true, false, not, ◌&&◌, ◌||◌, Option, none, some, List, [], ◌∷◌, ◌++◌, map, arith,
  length, All, All-imp, All-snoc, All-append, All-at, Has, ltb, leb, ◌==◌, if◌then◌else◌,
  Bool-cases, Option-cases, ==_iff, ==_false, leb→le,
}
use packrat.Merge.Disk.{FilePath, same_path, File, System, CopyKind, Placed, place_copy}

pub data Progress : Type 0 where
  pending copied registered copied_unindexed skipped error : Progress

pub data Classification : Type 0 where
  new exact_known trashed dup_in_source failed : Classification

pub record Item : Type 0 where
  pub rel : FilePath
  pub mtime : Option ℕ
  pub content_hash : Option ℕ
  pub classification : Option Classification
  pub rep_of_hash : Option ℕ
  pub dest_path : Option FilePath
  pub progress : Progress

pub record Asset : Type 0 where
  pub id : ℕ
  pub content_hash : ℕ
  pub is_trashed : Bool

pub record Instance : Type 0 where
  pub asset_id : ℕ
  pub root_id : ℕ
  pub path : FilePath

-- The counters, and the ignored subpaths with their numbers.
pub record Tally : Type 0 where
  pub new_count : ℕ
  pub exact_count : ℕ
  pub trashed_count : ℕ
  pub dup_count : ℕ
  pub collisions : ℕ
  pub unindexed : ℕ
  pub errors : ℕ
  pub ignored_subpaths : List (FilePath × ℕ)

unfoldable pub new_out : Tally
new_out = record {
  new_count = 0;
  exact_count = 0;
  trashed_count = 0;
  dup_count = 0;
  collisions = 0;
  unindexed = 0;
  errors = 0;
  ignored_subpaths = [];
}

pub record World : Type 0 where
  pub files : List File
  pub assets : List Asset
  pub instances : List Instance
  pub out : Tally

-- IgnoreSet of src/packrat/ignore.py, on the segments of a path.
pub record Ignore : Type 0 where
  pub is_media : FilePath → Bool
  pub is_file_ignored : List FilePath → Bool
  pub is_dir_pruned : List FilePath → Bool

-- os.path.relpath to the root, split at the slashes, and os.path.dirname.
pub record PathOps : Type 0 where
  pub segments_of : FilePath → List FilePath
  pub parent_of : FilePath → FilePath

unfoldable pub basename : List FilePath → FilePath
basename [] = []
basename (s ∷ []) = s
basename (s ∷ t ∷ rest) = basename (t ∷ rest)

-- The folders above the file, from the top; `above` is the path walked so far.
unfoldable pub any_pruned : Ignore → List FilePath → List FilePath → Bool
any_pruned ig above [] = false
any_pruned ig above (s ∷ []) = false
any_pruned ig above (s ∷ t ∷ rest) =
    ig.is_dir_pruned (above ++ s ∷ []) || any_pruned ig (above ++ s ∷ []) (t ∷ rest)

unfoldable pub dest_ignored : Ignore → List FilePath → Bool
dest_ignored ig rel =
    not (ig.is_media (basename rel)) || ig.is_file_ignored rel || any_pruned ig [] rel

unfoldable pub count_subpath : FilePath → List (FilePath × ℕ) → List (FilePath × ℕ)
count_subpath p [] = (p, 1) ∷ []
count_subpath p ((q, n) ∷ rest) =
    if same_path q p then (q, n + 1) ∷ rest else (q, n) ∷ count_subpath p rest

-- The parent folder, or the path itself where that is empty.
unfoldable pub subpath_of : FilePath → FilePath → FilePath
subpath_of [] dest_path = dest_path
subpath_of (c ∷ cs) dest_path = c ∷ cs

unfoldable pub note_ignored : PathOps → FilePath → Tally → Tally
note_ignored ops dest_path out = record out {
  ignored_subpaths =
      count_subpath (subpath_of (ops.parent_of dest_path) dest_path) out.ignored_subpaths;
}

unfoldable pub find_asset : ℕ → List Asset → Option Asset
find_asset h [] = none
find_asset h (a ∷ rest) = if a.content_hash == h then some a else find_asset h rest

-- SQLite gives a new row the largest id and one more.
unfoldable pub max_asset : List Asset → ℕ
max_asset [] = 0
max_asset (a ∷ rest) = max a.id (max_asset rest)

unfoldable pub insert_asset : ℕ → List Asset → List Asset
insert_asset h table = elim (find_asset h table) [
  | none ↦ table ++ record { id = max_asset table + 1; content_hash = h; is_trashed = false } ∷ []
  | some a ↦ table
]

unfoldable pub is_instance : ℕ → FilePath → Instance → Bool
is_instance root p i = (i.root_id == root) && same_path i.path p

unfoldable pub find_instance : ℕ → FilePath → List Instance → Option Instance
find_instance root p [] = none
find_instance root p (i ∷ rest) = if is_instance root p i then some i else find_instance root p rest

unfoldable pub upsert : ℕ → ℕ → FilePath → List Instance → List Instance
upsert asset root p [] = record { asset_id = asset; root_id = root; path = p } ∷ []
upsert asset root p (i ∷ rest) =
    if is_instance root p i
    then record i { asset_id = asset } ∷ rest
    else i ∷ upsert asset root p rest

unfoldable pub has_instance : ℕ → List Instance → Bool
has_instance asset [] = false
has_instance asset (i ∷ rest) = (i.asset_id == asset) || has_instance asset rest

-- The delete of an asset that is active.
unfoldable pub delete_active : ℕ → List Asset → List Asset
delete_active k [] = []
delete_active k (a ∷ rest) =
    let kept = delete_active k rest in if (a.id == k) && not a.is_trashed then kept else a ∷ kept

unfoldable pub forget_if_orphaned : ℕ → List Instance → List Asset → List Asset
forget_if_orphaned k instances table =
    if has_instance k instances then table else delete_active k table

unfoldable pub repointed : Option Instance → ℕ → List Instance → List Asset → List Asset
repointed none asset instances table = table
repointed (some prev) asset instances table =
    if prev.asset_id == asset then table else forget_if_orphaned prev.asset_id instances table

unfoldable pub upsert_instance : ℕ → ℕ → FilePath → World → World
upsert_instance asset root p w =
    let instances = upsert asset root p w.instances in
    record w {
      instances = instances;
      assets = repointed (find_instance root p w.instances) asset instances w.assets;
    }

module _ (sys : System) (ig : Ignore) (ops : PathOps) (root_id : ℕ) where
  -- The asset is there after the insert.
  unfoldable pub register : ℕ → FilePath → World → World
  register h dest_path w =
      let table = insert_asset h w.assets in
      elim (find_asset h table) [
        | none ↦ w
        | some a ↦ upsert_instance a.id root_id dest_path (record w { assets = table })
      ]

  unfoldable pub count_unindexed : FilePath → World → World
  count_unindexed dest_path w = record w {
    out = note_ignored ops dest_path (record w.out { unindexed = w.out.unindexed + 1 });
  }

  unfoldable pub register_or_mark : ℕ → FilePath → World → World × Progress
  register_or_mark h dest_path w =
      if dest_ignored ig (ops.segments_of dest_path)
      then (count_unindexed dest_path w, copied_unindexed)
      else (register h dest_path w, registered)

  unfoldable pub count_new : World → World
  count_new w = record w { out = record w.out { new_count = w.out.new_count + 1 } }

  unfoldable pub count_error : World → World
  count_error w = record w { out = record w.out { errors = w.out.errors + 1 } }

  unfoldable pub count_collision : CopyKind → World → World
  count_collision CopyKind.renamed w = record w {
    out = record w.out { collisions = w.out.collisions + 1 };
  }
  count_collision CopyKind.fresh w = w
  count_collision CopyKind.identical w = w

  unfoldable pub finish_item : ℕ → FilePath → Item → World → World × Item
  finish_item h dest_path it w =
      let marked = register_or_mark h dest_path w in
      (count_new marked.0, record it { dest_path = some dest_path; progress = marked.1 })

  unfoldable pub copy_new : ℕ → Item → World → World × Item
  copy_new h it w =
      let placed = place_copy sys h it.rel w.files in
      elim placed.1 [
        | none ↦ (count_error (record w { files = placed.0 }), record it { progress = error })
        | some p ↦
            finish_item h p.dest_path it (count_collision p.kind (record w { files = placed.0 }))
      ]

  unfoldable pub count_skipped : Classification → Tally → Tally
  count_skipped exact_known out = record out { exact_count = out.exact_count + 1 }
  count_skipped trashed out = record out { trashed_count = out.trashed_count + 1 }
  count_skipped dup_in_source out = record out { dup_count = out.dup_count + 1 }
  count_skipped new out = out
  count_skipped failed out = out

  -- A file classified as new, by its progress; `copied` without a path is placed again. No branch
  -- writes `copied_unindexed` without a path; os.path.dirname would raise there.
  unfoldable pub new_item : ℕ → Progress → Option FilePath → Item → World → World × Item
  new_item h pending p it w = copy_new h it w
  new_item h error p it w = copy_new h it w
  new_item h skipped p it w = copy_new h it w
  new_item h copied none it w = copy_new h it w
  new_item h copied (some p) it w = finish_item h p it w
  new_item h registered p it w = (count_new w, it)
  new_item h copied_unindexed none it w = (count_new w, it)
  new_item h copied_unindexed (some p) it w = (count_unindexed p (count_new w), it)

  unfoldable pub skip_item : Classification → Item → World → World × Item
  skip_item c it w = (record w { out = count_skipped c w.out }, record it { progress = skipped })

  -- An item without a class is no key of the table of counters: it is only marked.
  unfoldable pub copy_class : ℕ → Option Classification → Item → World → World × Item
  copy_class h none it w = (w, record it { progress = skipped })
  copy_class h (some failed) it w = (count_error w, it)
  copy_class h (some new) it w = new_item h it.progress it.dest_path it w
  copy_class h (some exact_known) it w = skip_item exact_known it w
  copy_class h (some trashed) it w = skip_item trashed it w
  copy_class h (some dup_in_source) it w = skip_item dup_in_source it w

  unfoldable pub copy_hash : Option ℕ → Item → World → World × Item
  copy_hash none it w = (count_error w, it)
  copy_hash (some h) it w = copy_class h it.classification it w

  unfoldable pub copy_item : Item → World → World × Item
  copy_item it w = copy_hash it.content_hash it w

  -- The loop; `cancelled i` is a cancel that is seen before the i-th of the items left, which ends
  -- the run there. The plan's rows are written as the loop goes.
  unfoldable pub copy_items : (ℕ → Bool) → List Item → World → World × List Item
  copy_items cancelled [] w = (w, [])
  copy_items cancelled (it ∷ rest) w =
      if cancelled 0
      then (w, it ∷ rest)
      else (let done = copy_item it w in
          let tail = copy_items (λ i. cancelled (i + 1)) rest done.0 in (tail.0, done.1 ∷ tail.1))

  unfoldable pub copy_and_register : (ℕ → Bool) → List Item → World → World × List Item
  copy_and_register cancelled items w = copy_items cancelled items (record w { out = new_out })
