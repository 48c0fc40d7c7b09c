-- ===== src/Dedup/Apply/Disk.antt =====
-- What applying one target, or the targets of one asset, leaves on the disk and in the table of
-- instances.
use packrat.Prelude.{
  ℕ, ◌≡◌, sym, ◌≢◌, inl, inr, Bool, true, false, not, ◌&&◌, Option, none, some, List, [], ◌∷◌,
  arith, All, ◌==◌, if◌then◌else◌, Bool-cases,
}
use mathlib.Core.Path.{subst}
use packrat.Paths.{FilePath, same_path, same_path-≡}
use packrat.Scan.Catalogue.{
  InstanceRow, Catalogue, delete_instance, forget_if_orphaned, has_instance,
}
use packrat.Dedup.Apply.{
  Action, Recycled, taken, missing, refused, Applied, path_exists, remove_path, record_already_gone,
  drop_row, recycled, recycle_and_delete, apply_target, is_promoted, apply_targets, first_live,
  drop_survivor, note_promoted, apply_asset, apply_group,
}

pub remove_path-kept :
    (p q : FilePath) (disk : List FilePath)
    → same_path q p ≡ false
    → path_exists p disk ≡ true
    → path_exists p (remove_path q disk) ≡ true
unfolding path_exists remove_path
remove_path-kept p q [] apart h = h
remove_path-kept p q (r ∷ disk) apart h = elim (Bool-cases (same_path r q)) [
  | inl gone ↦
      let other : same_path r p ≡ false =
        subst (λ x. same_path x p ≡ false) (sym (same_path-≡ r q gone)) apart in
      rw gone (remove_path-kept p q disk apart (ground arith))
  | inr stays ↦ rw (stays, path_exists) (ground (arith, remove_path-kept p q disk apart))
]

pub same_path_apart : (p q : FilePath) → p ≢ q → same_path q p ≡ false
same_path_apart p q apart = elim (Bool-cases (same_path q p)) [
  | inl same ↦ absurd (apart (sym (same_path-≡ q p same)))
  | inr other ↦ other
]

module _ (P : InstanceRow → Type 0) where
  delete_instance-All :
      (k : ℕ) (rows : List InstanceRow) → All P rows → All P (delete_instance k rows)
  unfolding delete_instance
  delete_instance-All k [] h = h
  delete_instance-All k (i ∷ rows) h = elim (Bool-cases (i.id == k)) [
    | inl gone ↦ rw gone (delete_instance-All k rows h.1)
    | inr stays ↦ rw stays (h.0, delete_instance-All k rows h.1)
  ]

  abbrev pub AllRows : Applied → Type 0
  AllRows st = All P st.cat.instances

  forget-All :
      (k : ℕ) (cat : Catalogue) → All P cat.instances → All P (forget_if_orphaned k cat).instances
  unfolding forget_if_orphaned
  forget-All k cat h = elim (Bool-cases (has_instance k cat.instances)) [
    | inl has ↦ rw has h
    | inr bare ↦ rw bare h
  ]

  gone-All : (a : Action) (st : Applied) → AllRows st → AllRows (record_already_gone a st)
  unfolding record_already_gone
  gone-All a st h =
      forget-All a.asset_id
        (record st.cat { instances = delete_instance a.instance_id st.cat.instances })
        (delete_instance-All a.instance_id st.cat.instances h)

  drop_row-All :
      (b : Bool) (a : Action) (cat : Catalogue)
      → All P cat.instances
      → All P (drop_row b a cat).instances
  unfolding drop_row
  drop_row-All b a cat h =
      elim (Bool-cases
        (b && not (has_instance a.asset_id (delete_instance a.instance_id cat.instances)))) [
          | inl last ↦ rw last (delete_instance-All a.instance_id cat.instances h)
          | inr more ↦ rw more (delete_instance-All a.instance_id cat.instances h)
        ]

  module _ (recycle : FilePath → Recycled) (net : FilePath → Bool) where
    recycled-All :
        (o : Recycled) (b : Bool) (a : Action) (st : Applied)
        → AllRows st
        → AllRows (recycled recycle net o b a st)
    unfolding recycled
    recycled-All missing b a st h = gone-All a (record st { disk = remove_path a.path st.disk }) h
    recycled-All refused b a st h = h
    recycled-All taken b a st h = drop_row-All b a st.cat h

    apply_target-All :
        (b : Bool) (a : Action) (st : Applied)
        → AllRows st
        → AllRows (apply_target recycle net b a st)
    unfolding apply_target recycle_and_delete
    apply_target-All b a st h = elim (Bool-cases (path_exists a.path st.disk)) [
      | inl live ↦ rw live (recycled-All (recycle a.path) b a st h)
      | inr away ↦ rw away (gone-All a st h)
    ]

    either-All :
        (skip : Bool) (a : Action) (st : Applied)
        → AllRows st
        → AllRows (if skip then st else apply_target recycle net false a st)
    either-All true a st h = h
    either-All false a st h = apply_target-All false a st h

    apply_targets-All :
        (o : Option Action) (group : List Action) (st : Applied)
        → AllRows st
        → AllRows (apply_targets recycle net o group st)
    unfolding apply_targets
    apply_targets-All o [] st h = h
    apply_targets-All o (a ∷ group) st h =
        apply_targets-All o group _ (either-All (is_promoted recycle net o a) a st h)

    drop-All : (s : Option ℕ) (st : Applied) → AllRows st → AllRows (drop_survivor recycle net s st)
    unfolding drop_survivor
    drop-All none st h = h
    drop-All (some k) st h = delete_instance-All k st.cat.instances h

    note-All :
        (o : Option Action) (st : Applied) → AllRows st → AllRows (note_promoted recycle net o st)
    unfolding note_promoted
    note-All none st h = h
    note-All (some p) st h = h

    apply_asset-All :
        (live : Bool) (s : Option ℕ) (group : List Action) (st : Applied)
        → AllRows st
        → AllRows (apply_asset recycle net live s group st)
    unfolding apply_asset
    apply_asset-All true s group st h = apply_targets-All none group st h
    apply_asset-All false s group st h =
        apply_targets-All _ group _
          (note-All (first_live recycle net st.disk group) _ (drop-All s st h))

    pub apply_group-All :
        (group : List Action) (st : Applied)
        → AllRows st
        → AllRows (apply_group recycle net group st)
    unfolding apply_group
    apply_group-All [] st h = h
    apply_group-All (a ∷ group) st h = apply_asset-All _ a.survivor_instance_id (a ∷ group) st h
