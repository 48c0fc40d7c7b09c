-- ===== src/Dedup/Plan.antt =====
-- The plan of the first stage: _plan_exact and _exact_action of src/packrat/jobs/dedup.py. `lower` is
-- the change of case of normcase. The number in a shortcut's name, and the fields that the first
-- stage leaves empty, are left out.
pub mod Survivors
mod Samples
use packrat.Prelude.{
  ℕ, zero, suc, ◌+◌, ◌-◌, ◌*◌, ◌/◌, ◌%◌, ◌≤◌, ◌<◌, min, max, ◌≡◌, refl, sym, ap, ◌∙◌, ◌≢◌, ◌⊎◌, inl,
  inr, Bool, true, false, not, ◌&&◌, ◌||◌, Option, none, some, List, [], ◌∷◌, ◌++◌, map, arith,
  length, All, All-imp, All-snoc, All-append, All-at, Has, ltb, leb, ◌==◌, if◌then◌else◌,
  Bool-cases, Option-cases, ==_iff, ==_false, leb→le,
}
use packrat.Prelude.Groups.{group_by}
use packrat.Paths.{FilePath, normcase}
use packrat.Merge.Plan.{path_lt}
use packrat.Scan.Catalogue.{AssetRow, InstanceRow, Catalogue}
use packrat.Dedup.Apply.{same_number}

pub data Reason : Type 0 where
  exact_external exact_internal_preferred exact_internal : Reason

pub record Planned : Type 0 where
  pub asset_id : ℕ
  pub instance_id : ℕ
  pub path : FilePath
  pub survivor_instance_id : ℕ
  pub survivor_path : FilePath
  pub reason : Reason
  pub is_external : Bool

unfoldable pub is_active : ℕ → List AssetRow → Bool
is_active k [] = false
is_active k (a ∷ rest) = ((a.id == k) && not a.is_trashed) || is_active k rest

unfoldable pub in_root : ℕ → ℕ → List InstanceRow → Bool
in_root root k [] = false
in_root root k (i ∷ rest) = ((i.asset_id == k) && (i.root_id == root)) || in_root root k rest

-- The rows of the active assets that have an instance in the root.
unfoldable pub exact_rows : ℕ → Catalogue → List InstanceRow → List InstanceRow
exact_rows root cat [] = []
exact_rows root cat (i ∷ rest) =
    let others = exact_rows root cat rest in
    if is_active i.asset_id cat.assets && in_root root i.asset_id cat.instances
    then i ∷ others
    else others

unfoldable pub exact_action : InstanceRow → Reason → Bool → InstanceRow → Planned
exact_action survivor reason is_external i = record {
  asset_id = i.asset_id;
  instance_id = i.id;
  path = i.path;
  survivor_instance_id = survivor.id;
  survivor_path = survivor.path;
  reason = reason;
  is_external = is_external;
}

unfoldable pub inside : ℕ → List InstanceRow → List InstanceRow
inside root [] = []
inside root (i ∷ rest) =
    let others = inside root rest in if i.root_id == root then i ∷ others else others

unfoldable pub outside : ℕ → List InstanceRow → List InstanceRow
outside root [] = []
outside root (i ∷ rest) =
    let others = outside root rest in if i.root_id == root then others else i ∷ others

unfoldable pub mtime_of : Option ℕ → ℕ
mtime_of none = 0
mtime_of (some t) = t

-- The first of the smallest, as sorted(...)[0] has it.
unfoldable pub first_by :
    (InstanceRow → InstanceRow → Bool) → InstanceRow → List InstanceRow → InstanceRow
first_by lt i [] = i
first_by lt i (j ∷ rest) = if lt j i then first_by lt j rest else first_by lt i rest

module _ (lower : ℕ → ℕ) (root : ℕ) where
  unfoldable pub by_path : InstanceRow → InstanceRow → Bool
  by_path i j = path_lt (normcase lower i.path) (normcase lower j.path)

  unfoldable pub by_mtime_path : InstanceRow → InstanceRow → Bool
  by_mtime_path i j =
      ltb (mtime_of i.mtime) (mtime_of j.mtime)
      || ((mtime_of i.mtime == mtime_of j.mtime) && by_path i j)

  -- Every instance but the survivor.
  unfoldable pub all_but : InstanceRow → Reason → List InstanceRow → List Planned
  all_but s reason [] = []
  all_but s reason (i ∷ rest) =
      let others = all_but s reason rest in
      if i.id == s.id then others else exact_action s reason (not (i.root_id == root)) i ∷ others

  unfoldable pub all_of : InstanceRow → Reason → List InstanceRow → List Planned
  all_of s reason [] = []
  all_of s reason (i ∷ rest) = exact_action s reason false i ∷ all_of s reason rest

  -- The actions on one asset: its instances, those inside the root, and those outside. An asset of
  -- the query has an instance inside.
  unfoldable pub plan_split :
      Bool → List InstanceRow → List InstanceRow → List InstanceRow → List Planned
  plan_split prefer insts [] external = []
  plan_split true insts (i ∷ internal) (e ∷ external) =
      all_but (first_by by_mtime_path i internal) exact_internal_preferred insts
  plan_split false insts (i ∷ internal) (e ∷ external) =
      all_of (first_by by_path e external) exact_external (i ∷ internal)
  plan_split prefer insts (i ∷ []) [] = []
  plan_split prefer insts (i ∷ j ∷ internal) [] =
      all_but (first_by by_mtime_path i (j ∷ internal)) exact_internal (i ∷ j ∷ internal)

  unfoldable pub plan_asset : Bool → List InstanceRow → List Planned
  plan_asset prefer insts = plan_split prefer insts (inside root insts) (outside root insts)

  unfoldable pub plan_assets : Bool → List (ℕ × List InstanceRow) → List Planned
  plan_assets prefer [] = []
  plan_assets prefer ((k, insts) ∷ rest) = plan_asset prefer insts ++ plan_assets prefer rest

  unfoldable pub plan_exact : Bool → Catalogue → List Planned
  plan_exact prefer cat =
      plan_assets prefer
        (group_by same_number (λ i. i.asset_id) (exact_rows root cat cat.instances) [])
