-- ===== src/Dedup/Apply/Samples.antt =====
-- One asset with two copies, and one group with a suggested lead.
use packrat.Prelude.{ℕ, ◌≡◌, refl, inl, Bool, false, none, some, [], ◌∷◌, Has, ◌==◌}
use packrat.Prelude.Groups.{append_at, group_by}
use packrat.Paths.{FilePath}
use packrat.Scan.Catalogue.{InstanceRow}
use packrat.Dedup.Apply.{
  Action, Recycled, taken, Applied, new_tally, same_number, has_id, without, leads_of,
  group_intended, groups_intended, keep_suggested_intended,
}
use packrat.Dedup.Apply.Suggested.{keep_suggested-lead}

abbrev second_copy : Action
second_copy = record {
  id = 1;
  asset_id = 7;
  instance_id = 2;
  path = 98 ∷ [];
  survivor_instance_id = some 1;
  group_no = 1;
  is_external = false;
  shortcut_name = 1 ∷ [];
}

abbrev first_row : InstanceRow
first_row = record {
  id = 1;
  asset_id = 7;
  root_id = 3;
  path = 97 ∷ [];
  size = 5;
  mtime = none;
  last_seen_at = 0;
}

abbrev second_row : InstanceRow
second_row = record first_row { id = 2; path = 98 ∷ [] }

abbrev before : Applied
before = record {
  cat = record { assets = []; instances = first_row ∷ second_row ∷ []; needs_dedup = [] };
  disk = (97 ∷ []) ∷ (98 ∷ []) ∷ [];
  out = new_tally;
}

abbrev bin : FilePath → Recycled
bin p = taken

abbrev no_network : FilePath → Bool
no_network p = false

abbrev fst_of : FilePath → ℕ
fst_of [] = 0
fst_of (c ∷ cs) = c

-- The lead's shortcut starts with 9.
abbrev marked : FilePath → Bool
marked [] = false
marked (c ∷ cs) = c == 9

abbrev lead : Action
lead = record second_copy { id = 5; instance_id = 6; path = 99 ∷ []; shortcut_name = 9 ∷ [] }

second_copy_intended : Has second_copy (keep_suggested_intended marked (lead ∷ second_copy ∷ []))
unfolding keep_suggested_intended groups_intended group_intended leads_of without has_id group_by
    append_at same_number
second_copy_intended = inl refl

keep_suggested-lead_example :
    Has second_copy (lead ∷ second_copy ∷ [])
    × (marked second_copy.shortcut_name ≡ false)
    × ((l : Action) × Has l (lead ∷ second_copy ∷ [])
        × (l.group_no ≡ second_copy.group_no)
        × ¬ (Has l (keep_suggested_intended marked (lead ∷ second_copy ∷ []))))
keep_suggested-lead_example =
    keep_suggested-lead marked (lead ∷ second_copy ∷ []) second_copy second_copy_intended
