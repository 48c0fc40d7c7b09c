-- ===== src/Dedup/Apply/LastCopy.antt =====
-- The last copy of a content survives the first stage.
use packrat.Prelude.{ℕ, ◌≡◌, ◌≢◌, ◌⊎◌, Bool, true, some, List, arith, Has}
use packrat.Prelude.Groups.{Grouped, Everywhere}
use packrat.Paths.{FilePath}
use packrat.Scan.Catalogue.{InstanceRow, Catalogue}
use packrat.Dedup.Apply.{Action, Recycled, Applied, same_number}
use packrat.Dedup.Apply.Disk.{AllRows}
use packrat.Dedup.Apply.Exact.{Live, OneAction}

pub number-≡ : (j k : ℕ) → same_number j k ≡ true → j ≡ k
unfolding same_number
number-≡ j k h = ground arith

pub number_refl : (k : ℕ) → same_number k k ≡ true
unfolding same_number
number_refl k = ground arith

-- A row that is the survivor of an action.
abbrev pub IsSurvivor : InstanceRow → Action → Type 0
IsSurvivor i b = b.survivor_instance_id ≡ some i.id

-- A path of the asset: that of an action, or of an action's survivor.
abbrev pub Copy : List Action → List InstanceRow → ℕ → FilePath → Type 0
Copy intended rows k p =
    (b : Action) × Has b intended
    × (b.asset_id ≡ k)
    × ((p ≡ b.path) ⊎ ((i : InstanceRow) × Has i rows × IsSurvivor i b × (p ≡ i.path)))

-- No action is on the path of a survivor.
abbrev pub SurvivorsApart : List Action → List InstanceRow → Type 0
SurvivorsApart intended rows =
    (a b : Action) (i : InstanceRow)
    → Has a intended
    → Has b intended
    → Has i rows
    → IsSurvivor i b
    → i.path ≢ a.path

module _ (recycle : FilePath → Recycled) (net : FilePath → Bool) (intended : List Action)
    (rows : List InstanceRow) where
  module _ (one : OneAction intended) (apart : SurvivorsApart intended rows) where
    abbrev Members : List (ℕ × List Action) → Type 0
    Members groups = Everywhere same_number number-≡ number_refl (λ a. Has a intended) groups

    abbrev ByAsset : List (ℕ × List Action) → Type 0
    ByAsset groups = Grouped same_number number-≡ number_refl (λ (a : Action). a.asset_id) groups

    abbrev Rows : Applied → Type 0
    Rows st = AllRows (λ i. Has i rows) st

    abbrev Kept : ℕ → Applied → Type 0
    Kept k st = (p : FilePath) × Live p st × Copy intended rows k p
