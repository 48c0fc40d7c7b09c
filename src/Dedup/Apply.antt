-- ===== src/Dedup/Apply.antt =====
-- The apply phase of a dedup stage: _intends_delete, _keep_suggested_intended and _apply_stage of
-- src/packrat/jobs/dedup.py. The disk is the list of the paths at which a file stands; what the
-- Recycle Bin answers for a path, and which paths lie on the network, are parameters.
pub mod Disk
pub mod Exact
pub mod LastCopy
pub mod Suggested
mod Samples
use packrat.Prelude.{
  ℕ, zero, suc, ◌+◌, ◌-◌, ◌*◌, ◌/◌, ◌%◌, ◌≤◌, ◌<◌, min, max, ◌≡◌, refl, sym, ap, ◌∙◌, ◌≢◌, ◌⊎◌, inl,
  inr, Bool, true, false, not, ◌&&◌, ◌||◌, Option, none, some, List, [], ◌∷◌, ◌++◌, map, arith,
  length, All, All-imp, All-snoc, All-append, All-at, Has, ltb, leb, ◌==◌, if◌then◌else◌,
  Bool-cases, Option-cases, ==_iff, ==_false, leb→le,
}
use packrat.Prelude.Groups.{append_at, group_by}
use packrat.Paths.{FilePath, same_path}
use packrat.Scan.Catalogue.{
  AssetRow, InstanceRow, Catalogue, delete_instance, forget_if_orphaned, has_instance,
}

-- A row of review_actions.
pub record Action : Type 0 where
  pub id : ℕ
  pub asset_id : ℕ
  pub instance_id : ℕ
  pub path : FilePath
  pub survivor_instance_id : Option ℕ
  pub group_no : ℕ
  pub is_external : Bool
  pub shortcut_name : FilePath

pub data Stage : Type 0 where
  exact recompress edit : Stage

pub data Disposition : Type 0 where
  survivor_vanished_promoted already_gone failed deleted_permanent deleted_to_bin : Disposition

-- The Recycle Bin took the file, or none stood there, or it refused.
pub data Recycled : Type 0 where
  taken missing refused : Recycled

pub record Tally : Type 0 where
  pub exact_deleted : ℕ
  pub perceptual_deleted : ℕ
  pub already_gone : ℕ
  pub survivor_vanished : ℕ
  pub external_deleted : ℕ
  pub network_deleted : ℕ
  pub spared : ℕ
  pub dispositions : List (FilePath × Disposition)

abbrev pub new_tally : Tally
new_tally = record {
  exact_deleted = 0;
  perceptual_deleted = 0;
  already_gone = 0;
  survivor_vanished = 0;
  external_deleted = 0;
  network_deleted = 0;
  spared = 0;
  dispositions = [];
}

pub record Applied : Type 0 where
  pub cat : Catalogue
  pub disk : List FilePath
  pub out : Tally

unfoldable pub path_exists : FilePath → List FilePath → Bool
path_exists p [] = false
path_exists p (q ∷ rest) = same_path q p || path_exists p rest

unfoldable pub remove_path : FilePath → List FilePath → List FilePath
remove_path p [] = []
remove_path p (q ∷ rest) = let kept = remove_path p rest in if same_path q p then kept else q ∷ kept

-- A shortcut that is present means delete in the first stage, and keep in the others.
unfoldable pub intends_delete : Stage → Bool → Bool
intends_delete exact present = present
intends_delete recompress present = not present
intends_delete edit present = not present

unfoldable pub same_number : ℕ → ℕ → Bool
same_number j k = j == k

unfoldable pub has_id : ℕ → List Action → Bool
has_id k [] = false
has_id k (a ∷ rest) = (a.id == k) || has_id k rest

unfoldable pub without : List Action → List Action → List Action
without leads [] = []
without leads (a ∷ rest) =
    let others = without leads rest in if has_id a.id leads then others else a ∷ others

module _ (is_marked : FilePath → Bool) where
  unfoldable pub leads_of : List Action → List Action
  leads_of [] = []
  leads_of (a ∷ rest) =
      let leads = leads_of rest in if is_marked a.shortcut_name then a ∷ leads else leads

  -- A group without a lead is spared.
  unfoldable pub group_intended : List Action → List Action → List Action
  group_intended [] members = []
  group_intended (l ∷ leads) members = without (l ∷ leads) members

  unfoldable pub groups_intended : List (ℕ × List Action) → List Action
  groups_intended [] = []
  groups_intended ((k, members) ∷ rest) =
      group_intended (leads_of members) members ++ groups_intended rest

  unfoldable pub keep_suggested_intended : List Action → List Action
  keep_suggested_intended actions =
      groups_intended (group_by same_number (λ a. a.group_no) actions [])

unfoldable pub find_instance : ℕ → List InstanceRow → Option FilePath
find_instance k [] = none
find_instance k (i ∷ rest) = if i.id == k then some i.path else find_instance k rest

unfoldable pub survivor_path : Option ℕ → Catalogue → Option FilePath
survivor_path none cat = none
survivor_path (some k) cat = find_instance k cat.instances

unfoldable pub is_live : Option FilePath → List FilePath → Bool
is_live none disk = false
is_live (some p) disk = path_exists p disk

unfoldable pub dispose : FilePath → Disposition → Tally → Tally
dispose p d out = record out { dispositions = out.dispositions ++ (p, d) ∷ [] }

unfoldable pub record_already_gone : Action → Applied → Applied
record_already_gone a st = record st {
  cat =
      forget_if_orphaned a.asset_id
        (record st.cat { instances = delete_instance a.instance_id st.cat.instances });
  out = dispose a.path already_gone (record st.out { already_gone = st.out.already_gone + 1 });
}

unfoldable pub trash_asset : ℕ → List AssetRow → List AssetRow
trash_asset k [] = []
trash_asset k (a ∷ rest) =
    (if a.id == k then record a { is_trashed = true } else a) ∷ trash_asset k rest

-- The rows after a file was recycled: in the perceptual stages an asset that lost its last instance
-- is kept as trash.
unfoldable pub drop_row : Bool → Action → Catalogue → Catalogue
drop_row perceptual a cat =
    let rows = delete_instance a.instance_id cat.instances in
    if perceptual && not (has_instance a.asset_id rows)
    then record cat { instances = rows; assets = trash_asset a.asset_id cat.assets }
    else record cat { instances = rows }

unfoldable pub count_deleted : Bool → Bool → Bool → Tally → Tally
count_deleted perceptual external network out = record out {
  exact_deleted = if perceptual then out.exact_deleted else out.exact_deleted + 1;
  perceptual_deleted = if perceptual then out.perceptual_deleted + 1 else out.perceptual_deleted;
  external_deleted = if external then out.external_deleted + 1 else out.external_deleted;
  network_deleted = if network then out.network_deleted + 1 else out.network_deleted;
}

module _ (recycle : FilePath → Recycled) (is_network_path : FilePath → Bool) where
  unfoldable pub recycled : Recycled → Bool → Action → Applied → Applied
  recycled missing perceptual a st =
      record_already_gone a (record st { disk = remove_path a.path st.disk })
  recycled refused perceptual a st = record st { out = dispose a.path failed st.out }
  recycled taken perceptual a st = record st {
    cat = drop_row perceptual a st.cat;
    disk = remove_path a.path st.disk;
    out =
        dispose a.path (if is_network_path a.path then deleted_permanent else deleted_to_bin)
          (count_deleted perceptual a.is_external (is_network_path a.path) st.out);
  }

  unfoldable pub recycle_and_delete : Bool → Action → Applied → Applied
  recycle_and_delete perceptual a st = recycled (recycle a.path) perceptual a st

  unfoldable pub apply_target : Bool → Action → Applied → Applied
  apply_target perceptual a st =
      if path_exists a.path st.disk
      then recycle_and_delete perceptual a st
      else record_already_gone a st

  unfoldable pub is_promoted : Option Action → Action → Bool
  is_promoted none a = false
  is_promoted (some p) a = a.id == p.id

  unfoldable pub apply_targets : Option Action → List Action → Applied → Applied
  apply_targets promote [] st = st
  apply_targets promote (a ∷ rest) st =
      apply_targets promote rest (if is_promoted promote a then st else apply_target false a st)

  unfoldable pub first_live : List FilePath → List Action → Option Action
  first_live disk [] = none
  first_live disk (a ∷ rest) = if path_exists a.path disk then some a else first_live disk rest

  unfoldable pub drop_survivor : Option ℕ → Applied → Applied
  drop_survivor none st = st
  drop_survivor (some k) st = record st {
    cat = record st.cat { instances = delete_instance k st.cat.instances };
  }

  unfoldable pub note_promoted : Option Action → Applied → Applied
  note_promoted none st = st
  note_promoted (some p) st = record st {
    out = dispose p.path survivor_vanished_promoted (record st.out {
      survivor_vanished = st.out.survivor_vanished + 1;
      spared = st.out.spared + 1;
    });
  }

  -- The targets of one asset, where its survivor is live and where it has vanished.
  unfoldable pub apply_asset : Bool → Option ℕ → List Action → Applied → Applied
  apply_asset true survivor group st = apply_targets none group st
  apply_asset false survivor group st =
      let promote = first_live st.disk group in
      apply_targets promote group (note_promoted promote (drop_survivor survivor st))

  unfoldable pub apply_group : List Action → Applied → Applied
  apply_group [] st = st
  apply_group (a ∷ rest) st =
      apply_asset (is_live (survivor_path a.survivor_instance_id st.cat) st.disk)
        a.survivor_instance_id (a ∷ rest) st

  -- A cancel that is seen before the i-th of the groups, or targets, that are left ends the run there.
  unfoldable pub apply_groups : (ℕ → Bool) → List (ℕ × List Action) → Applied → Applied
  apply_groups cancelled [] st = st
  apply_groups cancelled ((k, group) ∷ rest) st =
      if cancelled 0 then st else apply_groups (λ i. cancelled (i + 1)) rest (apply_group group st)

  unfoldable pub apply_perceptual : (ℕ → Bool) → List Action → Applied → Applied
  apply_perceptual cancelled [] st = st
  apply_perceptual cancelled (a ∷ rest) st =
      if cancelled 0
      then st
      else apply_perceptual (λ i. cancelled (i + 1)) rest (apply_target true a st)

  unfoldable pub apply_exact : (ℕ → Bool) → List Action → Applied → Applied
  apply_exact cancelled intended st =
      apply_groups cancelled (group_by same_number (λ a. a.asset_id) intended []) st

  unfoldable pub apply_stage : Stage → (ℕ → Bool) → List Action → Applied → Applied
  apply_stage exact cancelled intended st = apply_exact cancelled intended st
  apply_stage recompress cancelled intended st = apply_perceptual cancelled intended st
  apply_stage edit cancelled intended st = apply_perceptual cancelled intended st
