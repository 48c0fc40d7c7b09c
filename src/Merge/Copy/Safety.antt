-- ===== src/Merge/Copy/Safety.antt =====
-- Over the whole copying of a merge: the files that it leaves alone.
use packrat.Prelude.{
  ℕ, ◌+◌, ◌≡◌, refl, ap, ◌∙◌, inl, inr, Bool, Option, none, some, List, [], ◌∷◌, Bool-cases,
  Option-cases,
}
use packrat.Merge.Disk.{FilePath, read, System, place_copy, CopyKind}
use packrat.Merge.Disk.Keeps.{Stays, place_copy-Stays}
use packrat.Merge.Copy.{
  Item, World, Ignore, PathOps, Progress, Classification, register, upsert_instance, find_asset,
  insert_asset, register_or_mark, count_unindexed, count_new, count_error, count_collision,
  finish_item, copy_new, new_item, skip_item, copy_class, copy_hash, copy_item, copy_items,
  copy_and_register, dest_ignored,
}

pub upsert_instance-files :
    (a r : ℕ) (p : FilePath) (w : World) → (upsert_instance a r p w).files ≡ w.files
unfolding upsert_instance
upsert_instance-files a r p w = refl

module _ (sys : System) (ig : Ignore) (ops : PathOps) (root : ℕ) where
  register-files :
      (h : ℕ) (p : FilePath) (w : World) → (register sys ig ops root h p w).files ≡ w.files
  unfolding register
  register-files h p w = elim (Option-cases (find_asset h (insert_asset h w.assets))) [
    | inl absent ↦ rw (absent, register) refl
    | inr (a, there) ↦ rw (there, register) (upsert_instance-files a.id root p _)
  ]

  register_or_mark-files :
      (h : ℕ) (p : FilePath) (w : World)
      → (register_or_mark sys ig ops root h p w).0.files ≡ w.files
  unfolding register_or_mark count_unindexed
  register_or_mark-files h p w = elim (Bool-cases (dest_ignored ig (ops.segments_of p))) [
    | inl out ↦ rw out refl
    | inr in_scope ↦ rw in_scope (register-files h p w)
  ]

  finish_item-files :
      (h : ℕ) (p : FilePath) (it : Item) (w : World)
      → (finish_item sys ig ops root h p it w).0.files ≡ w.files
  unfolding finish_item count_new
  finish_item-files h p it w = register_or_mark-files h p w

  count_collision-files :
      (k : CopyKind) (w : World) → (count_collision sys ig ops root k w).files ≡ w.files
  unfolding count_collision
  count_collision-files CopyKind.fresh w = refl
  count_collision-files CopyKind.identical w = refl
  count_collision-files CopyKind.renamed w = refl

  module _ (q : FilePath) (c : Option ℕ) where
    copy_new-Stays :
        (h : ℕ) (it : Item) (w : World)
        → Stays q c w.files
        → read q (copy_new sys ig ops root h it w).0.files ≡ some c
    unfolding copy_new count_error
    copy_new-Stays h it w stays =
        let kept = place_copy-Stays sys h it.rel w.files q c stays in
        elim (Option-cases (place_copy sys h it.rel w.files).1) [
          | inl raised ↦ rw (raised, copy_new) kept
          | inr (p, placed) ↦
              rw (placed, copy_new)
                (ap (read q) (finish_item-files h p.dest_path it _ ∙ count_collision-files p.kind _)
                  ∙ kept)
        ]

    new_item-Stays :
        (h : ℕ) (p : Progress) (d : Option FilePath) (it : Item) (w : World)
        → Stays q c w.files
        → read q (new_item sys ig ops root h p d it w).0.files ≡ some c
    unfolding new_item count_new count_unindexed
    new_item-Stays h Progress.pending d it w stays = copy_new-Stays h it w stays
    new_item-Stays h Progress.error d it w stays = copy_new-Stays h it w stays
    new_item-Stays h Progress.skipped d it w stays = copy_new-Stays h it w stays
    new_item-Stays h Progress.copied none it w stays = copy_new-Stays h it w stays
    new_item-Stays h Progress.copied (some p) it w stays =
        ap (read q) (finish_item-files h p it w) ∙ stays.0
    new_item-Stays h Progress.registered d it w stays = stays.0
    new_item-Stays h Progress.copied_unindexed none it w stays = stays.0
    new_item-Stays h Progress.copied_unindexed (some p) it w stays = stays.0

    copy_class-Stays :
        (h : ℕ) (cl : Option Classification) (it : Item) (w : World)
        → Stays q c w.files
        → read q (copy_class sys ig ops root h cl it w).0.files ≡ some c
    unfolding copy_class skip_item count_error
    copy_class-Stays h none it w stays = stays.0
    copy_class-Stays h (some Classification.failed) it w stays = stays.0
    copy_class-Stays h (some Classification.new) it w stays =
        new_item-Stays h it.progress it.dest_path it w stays
    copy_class-Stays h (some Classification.exact_known) it w stays = stays.0
    copy_class-Stays h (some Classification.trashed) it w stays = stays.0
    copy_class-Stays h (some Classification.dup_in_source) it w stays = stays.0

    copy_hash-Stays :
        (h : Option ℕ) (it : Item) (w : World)
        → Stays q c w.files
        → read q (copy_hash sys ig ops root h it w).0.files ≡ some c
    unfolding copy_hash count_error
    copy_hash-Stays none it w stays = stays.0
    copy_hash-Stays (some h) it w stays = copy_class-Stays h it.classification it w stays

    copy_items-Stays :
        (cancelled : ℕ → Bool) (items : List Item) (w : World)
        → Stays q c w.files
        → read q (copy_items sys ig ops root cancelled items w).0.files ≡ some c
    unfolding copy_items copy_item
    copy_items-Stays cancelled [] w stays = stays.0
    copy_items-Stays cancelled (it ∷ rest) w stays = elim (Bool-cases (cancelled 0)) [
      | inl stop ↦ rw stop stays.0
      | inr go_on ↦ rw go_on (
          copy_items-Stays (λ i. cancelled (i + 1)) rest _
            (copy_hash-Stays it.content_hash it w stays, stays.1))
    ]

    -- The copying of a merge never overwrites or deletes: whatever stood at a path when it began,
    -- but for the temporary files of a merge, is read there as before, at the end, after any cancel,
    -- and whatever fails. It says nothing of the refresh of the trash that a merge does before.
    pub merge-Stays :
        (cancelled : ℕ → Bool) (items : List Item) (w : World)
        → Stays q c w.files
        → read q (copy_and_register sys ig ops root cancelled items w).0.files ≡ some c
    unfolding copy_and_register
    merge-Stays cancelled items w stays = copy_items-Stays cancelled items _ stays
