-- ===== src/Merge/Copy/Resume.antt =====
-- A merge that runs again over a plan that it has finished.
use packrat.Prelude.{
  ℕ, ◌+◌, ◌≡◌, refl, sym, ap, ◌∙◌, ◌≢◌, ◌⊎◌, inl, inr, Bool, false, Option, none, some, List, [],
  ◌∷◌, All, Bool-cases, Option-cases,
}
use packrat.Merge.Disk.{FilePath, System, place_copy}
use packrat.Merge.Copy.{
  Item, World, Ignore, PathOps, Progress, Classification, register_or_mark, count_unindexed,
  count_new, count_error, finish_item, copy_new, new_item, skip_item, copy_class, copy_hash,
  copy_item, copy_items, copy_and_register, dest_ignored,
}

-- A row that the loop only counts.
abbrev pub Terminal : Option ℕ → Option Classification → Progress → Type 0
Terminal none c p = Unit
Terminal (some h) none p = p ≡ Progress.skipped
Terminal (some h) (some Classification.new) p =
    (p ≡ Progress.registered) ⊎ (p ≡ Progress.copied_unindexed)
Terminal (some h) (some Classification.failed) p = Unit
Terminal (some h) (some Classification.exact_known) p = p ≡ Progress.skipped
Terminal (some h) (some Classification.trashed) p = p ≡ Progress.skipped
Terminal (some h) (some Classification.dup_in_source) p = p ≡ Progress.skipped

abbrev pub IsTerminal : Item → Type 0
IsTerminal it = Terminal it.content_hash it.classification it.progress

-- The files and the tables are the same; the counters may differ.
abbrev pub Unchanged : World → World → Type 0
Unchanged w v = (w.files ≡ v.files) × (w.assets ≡ v.assets) × (w.instances ≡ v.instances)

skipped_same :
    (it : Item) → it.progress ≡ Progress.skipped → record it { progress = Progress.skipped } ≡ it
skipped_same it e = ap (λ p. record it { progress = p }) (sym e)

module _ (sys : System) (ig : Ignore) (ops : PathOps) (root : ℕ) where
  abbrev Counted : World × Item → World → Item → Type 0
  Counted r w it = Unchanged r.0 w × (r.1 ≡ it)

  new_item-Counted :
      (h : ℕ) (p : Progress) (d : Option FilePath) (it : Item) (w : World)
      → (p ≡ Progress.registered) ⊎ (p ≡ Progress.copied_unindexed)
      → Counted (new_item sys ig ops root h p d it w) w it
  unfolding new_item count_new count_unindexed
  new_item-Counted h Progress.registered d it w e = ((refl, refl, refl), refl)
  new_item-Counted h Progress.copied_unindexed none it w e = ((refl, refl, refl), refl)
  new_item-Counted h Progress.copied_unindexed (some p) it w e = ((refl, refl, refl), refl)
  new_item-Counted h Progress.pending d it w e = elim e [ inl x ↦ cc | inr x ↦ cc ]
  new_item-Counted h Progress.error d it w e = elim e [ inl x ↦ cc | inr x ↦ cc ]
  new_item-Counted h Progress.skipped d it w e = elim e [ inl x ↦ cc | inr x ↦ cc ]
  new_item-Counted h Progress.copied d it w e = elim e [ inl x ↦ cc | inr x ↦ cc ]

  copy_class-Counted :
      (h : ℕ) (c : Option Classification) (it : Item) (w : World)
      → Terminal (some h) c it.progress
      → Counted (copy_class sys ig ops root h c it w) w it
  unfolding copy_class skip_item count_error
  copy_class-Counted h none it w e = ((refl, refl, refl), skipped_same it e)
  copy_class-Counted h (some Classification.failed) it w e = ((refl, refl, refl), refl)
  copy_class-Counted h (some Classification.new) it w e =
      new_item-Counted h it.progress it.dest_path it w e
  copy_class-Counted h (some Classification.exact_known) it w e =
      ((refl, refl, refl), skipped_same it e)
  copy_class-Counted h (some Classification.trashed) it w e =
      ((refl, refl, refl), skipped_same it e)
  copy_class-Counted h (some Classification.dup_in_source) it w e =
      ((refl, refl, refl), skipped_same it e)

  copy_hash-Counted :
      (o : Option ℕ) (it : Item) (w : World)
      → Terminal o it.classification it.progress
      → Counted (copy_hash sys ig ops root o it w) w it
  unfolding copy_hash count_error
  copy_hash-Counted none it w e = ((refl, refl, refl), refl)
  copy_hash-Counted (some h) it w e = copy_class-Counted h it.classification it w e

  copy_items-Counted :
      (cancelled : ℕ → Bool) (items : List Item) (w : World)
      → All IsTerminal items
      → Unchanged (copy_items sys ig ops root cancelled items w).0 w
        × ((copy_items sys ig ops root cancelled items w).1 ≡ items)
  unfolding copy_items copy_item
  copy_items-Counted cancelled [] w h = ((refl, refl, refl), refl)
  copy_items-Counted cancelled (it ∷ rest) w h = elim (Bool-cases (cancelled 0)) [
    | inl stop ↦ rw stop ((refl, refl, refl), refl)
    | inr go_on ↦
        let first = copy_hash-Counted it.content_hash it w h.0 in
        let done =
          copy_items sys ig ops root (λ i. cancelled (i + 1)) rest
            (copy_hash sys ig ops root it.content_hash it w).0 in
        let later =
          copy_items-Counted (λ i. cancelled (i + 1)) rest
            (copy_hash sys ig ops root it.content_hash it w).0 h.1 in
        rw go_on (
          (later.0.0 ∙ first.0.0, later.0.1 ∙ first.0.1, later.0.2 ∙ first.0.2),
          ap (λ i. i ∷ done.1) first.1 ∙ ap (λ is. it ∷ is) later.1,
        )
  ]

  -- What the loop leaves of a row.
  abbrev Ended : Item → Type 0
  Ended it = IsTerminal it ⊎ (it.progress ≡ Progress.error)

  register_or_mark-Ended :
      (h : ℕ) (p : FilePath) (w : World)
      → ((register_or_mark sys ig ops root h p w).1 ≡ Progress.registered)
        ⊎ ((register_or_mark sys ig ops root h p w).1 ≡ Progress.copied_unindexed)
  unfolding register_or_mark
  register_or_mark-Ended h p w = elim (Bool-cases (dest_ignored ig (ops.segments_of p))) [
    | inl out ↦ rw out (inr refl)
    | inr in_scope ↦ rw in_scope (inl refl)
  ]

  abbrev EndedAs : Item → Item → Type 0
  EndedAs it r =
      (r.content_hash ≡ it.content_hash)
      × (r.classification ≡ it.classification)
      × ((r.progress ≡ Progress.registered)
          ⊎ (r.progress ≡ Progress.copied_unindexed)
          ⊎ (r.progress ≡ Progress.error))

  finish_item-Ended :
      (h : ℕ) (p : FilePath) (it : Item) (w : World)
      → EndedAs it (finish_item sys ig ops root h p it w).1
  unfolding finish_item
  finish_item-Ended h p it w = elim (register_or_mark-Ended h p w) [
    | inl e ↦ (refl, refl, inl e)
    | inr e ↦ (refl, refl, inr (inl e))
  ]

  copy_new-Ended : (h : ℕ) (it : Item) (w : World) → EndedAs it (copy_new sys ig ops root h it w).1
  unfolding copy_new
  copy_new-Ended h it w = elim (Option-cases (place_copy sys h it.rel w.files).1) [
    | inl raised ↦ rw (raised, copy_new) (refl, refl, inr (inr refl))
    | inr (p, placed) ↦ rw (placed, copy_new) (finish_item-Ended h p.dest_path it _)
  ]

  new_item-Ended :
      (h : ℕ) (p : Progress) (d : Option FilePath) (it : Item) (w : World)
      → it.progress ≡ p
      → EndedAs it (new_item sys ig ops root h p d it w).1
  unfolding new_item
  new_item-Ended h Progress.pending d it w e = copy_new-Ended h it w
  new_item-Ended h Progress.error d it w e = copy_new-Ended h it w
  new_item-Ended h Progress.skipped d it w e = copy_new-Ended h it w
  new_item-Ended h Progress.copied none it w e = copy_new-Ended h it w
  new_item-Ended h Progress.copied (some p) it w e = finish_item-Ended h p it w
  new_item-Ended h Progress.registered d it w e = (refl, refl, inl e)
  new_item-Ended h Progress.copied_unindexed none it w e = (refl, refl, inr (inl e))
  new_item-Ended h Progress.copied_unindexed (some p) it w e = (refl, refl, inr (inl e))

  EndedAs-new :
      (h : ℕ) (it r : Item)
      → it.content_hash ≡ some h
      → it.classification ≡ some Classification.new
      → EndedAs it r
      → Ended r
  EndedAs-new h it r hash class (same_hash, same_class, progress) =
      rw (same_hash ∙ hash, same_class ∙ class)
        (elim progress [
          | inl e ↦ inl (inl e)
          | inr other ↦ elim other [ inl e ↦ inl (inr e) | inr e ↦ inr e ]
        ])

  skipped-Ended :
      (h : ℕ) (c : Option Classification) (it : Item)
      → it.content_hash ≡ some h
      → it.classification ≡ c
      → Terminal (some h) c Progress.skipped
      → Ended (record it { progress = Progress.skipped })
  skipped-Ended h c it hash class t = rw (hash, class) (inl t)

  copy_class-Ended :
      (h : ℕ) (c : Option Classification) (it : Item) (w : World)
      → it.content_hash ≡ some h
      → it.classification ≡ c
      → Ended (copy_class sys ig ops root h c it w).1
  unfolding copy_class skip_item
  copy_class-Ended h none it w hash class = skipped-Ended h none it hash class refl
  copy_class-Ended h (some Classification.failed) it w hash class = rw (hash, class) (inl tt)
  copy_class-Ended h (some Classification.new) it w hash class =
      EndedAs-new h it (new_item sys ig ops root h it.progress it.dest_path it w).1 hash class
        (new_item-Ended h it.progress it.dest_path it w refl)
  copy_class-Ended h (some Classification.exact_known) it w hash class =
      skipped-Ended h (some Classification.exact_known) it hash class refl
  copy_class-Ended h (some Classification.trashed) it w hash class =
      skipped-Ended h (some Classification.trashed) it hash class refl
  copy_class-Ended h (some Classification.dup_in_source) it w hash class =
      skipped-Ended h (some Classification.dup_in_source) it hash class refl

  copy_hash-Ended :
      (o : Option ℕ) (it : Item) (w : World)
      → it.content_hash ≡ o
      → Ended (copy_hash sys ig ops root o it w).1
  unfolding copy_hash
  copy_hash-Ended none it w hash = rw hash (inl tt)
  copy_hash-Ended (some h) it w hash = copy_class-Ended h it.classification it w hash refl

  copy_items-Ended :
      (items : List Item) (w : World)
      → All Ended (copy_items sys ig ops root (λ i. false) items w).1
  unfolding copy_items copy_item
  copy_items-Ended [] w = tt
  copy_items-Ended (it ∷ rest) w =
      (copy_hash-Ended it.content_hash it w refl, copy_items-Ended rest _)

  Ended-Terminal :
      (items : List Item)
      → All Ended items
      → All (λ it. it.progress ≢ Progress.error) items
      → All IsTerminal items
  Ended-Terminal [] h k = tt
  Ended-Terminal (it ∷ rest) h k = elim h.0 [
    | inl t ↦ (t, Ended-Terminal rest h.1 k.1)
    | inr e ↦ absurd (k.0 e)
  ]

  -- The copying of a merge that ran to its end without a failed row and is entered again with the same
  -- plan, as when the daemon stops before the merge is marked as done, changes no file, no row of the
  -- catalogue and no row of the plan, whatever cancels it. A merge that is marked as done is not
  -- entered again: the next one makes a new plan.
  pub resume_idempotent :
      (cancelled : ℕ → Bool) (items : List Item) (w : World)
      → All
          (λ it. it.progress ≢ Progress.error)
          (copy_and_register sys ig ops root (λ i. false) items w).1
      → let done = copy_and_register sys ig ops root (λ i. false) items w in
        let again = copy_and_register sys ig ops root cancelled done.1 done.0 in
        Unchanged again.0 done.0 × (again.1 ≡ done.1)
  unfolding copy_and_register
  resume_idempotent cancelled items w no_error =
      copy_items-Counted cancelled _ _ (Ended-Terminal _ (copy_items-Ended items _) no_error)
