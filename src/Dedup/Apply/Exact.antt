-- ===== src/Dedup/Apply/Exact.antt =====
-- What the targets of one asset leave on the disk in the first stage.
use packrat.Prelude.{
  ℕ, ◌≡◌, refl, sym, ap, ◌∙◌, ◌⊎◌, inl, inr, Bool, true, false, Option, none, some, List, [], ◌∷◌,
  arith, All, All-imp, All-Has, Has, if◌then◌else◌, Bool-cases,
}
use mathlib.Core.Path.{subst}
use packrat.Paths.{FilePath, same_path, same_path-≡}
use packrat.Scan.Catalogue.{Catalogue}
use packrat.Dedup.Apply.{
  Action, Recycled, taken, missing, refused, Applied, path_exists, survivor_path, is_live,
  record_already_gone, recycled, recycle_and_delete, apply_target, is_promoted, apply_targets,
  first_live, drop_survivor, note_promoted, apply_asset, apply_group,
}
use packrat.Dedup.Apply.Disk.{remove_path-kept}

-- A file stands at the path.
abbrev pub Live : FilePath → Applied → Type 0
Live p st = path_exists p st.disk ≡ true

-- Two actions on one path are one action.
abbrev pub OneAction : List Action → Type 0
OneAction group = (a b : Action) → Has a group → Has b group → a.path ≡ b.path → a ≡ b

module _ (recycle : FilePath → Recycled) (net : FilePath → Bool) where
  recycled-Live :
      (o : Recycled) (b : Bool) (a : Action) (st : Applied) (p : FilePath)
      → same_path a.path p ≡ false
      → Live p st
      → Live p (recycled recycle net o b a st)
  unfolding recycled record_already_gone
  recycled-Live missing b a st p apart live = remove_path-kept p a.path st.disk apart live
  recycled-Live refused b a st p apart live = live
  recycled-Live taken b a st p apart live = remove_path-kept p a.path st.disk apart live

  target-Live :
      (b : Bool) (a : Action) (st : Applied) (p : FilePath)
      → same_path a.path p ≡ false
      → Live p st
      → Live p (apply_target recycle net b a st)
  unfolding apply_target recycle_and_delete record_already_gone
  target-Live b a st p apart live = elim (Bool-cases (path_exists a.path st.disk)) [
    | inl here ↦ rw here (recycled-Live (recycle a.path) b a st p apart live)
    | inr away ↦ rw away live
  ]

  -- An action that leaves the file at a path alone: it is on another path, or it is the promoted one.
  abbrev Spares : Option Action → FilePath → Action → Type 0
  Spares o p a = (same_path a.path p ≡ false) ⊎ (is_promoted recycle net o a ≡ true)

  either-Live :
      (o : Option Action) (a : Action) (st : Applied) (p : FilePath)
      → Spares o p a
      → Live p st
      → Live p (if is_promoted recycle net o a then st else apply_target recycle net false a st)
  either-Live o a st p spares live = elim (Bool-cases (is_promoted recycle net o a)) [
    | inl promoted ↦ rw promoted live
    | inr other ↦ rw other (elim spares [
      | inl apart ↦ target-Live false a st p apart live
      | inr promoted ↦ absurd (let both = sym promoted ∙ other in cc)
    ])
  ]

  targets-Live :
      (o : Option Action) (group : List Action) (st : Applied) (p : FilePath)
      → All (Spares o p) group
      → Live p st
      → Live p (apply_targets recycle net o group st)
  unfolding apply_targets
  targets-Live o [] st p spares live = live
  targets-Live o (a ∷ group) st p spares live =
      targets-Live o group _ p spares.1 (either-Live o a st p spares.0 live)

  drop-disk : (s : Option ℕ) (st : Applied) → (drop_survivor recycle net s st).disk ≡ st.disk
  unfolding drop_survivor
  drop-disk none st = refl
  drop-disk (some k) st = refl

  note-disk : (o : Option Action) (st : Applied) → (note_promoted recycle net o st).disk ≡ st.disk
  unfolding note_promoted
  note-disk none st = refl
  note-disk (some p) st = refl

  -- The state in which the targets of an asset without a live survivor are applied.
  before-Live :
      (o : Option Action) (s : Option ℕ) (st : Applied) (p : FilePath)
      → Live p st
      → Live p (note_promoted recycle net o (drop_survivor recycle net s st))
  before-Live o s st p live =
      subst (λ d. path_exists p d ≡ true) (sym (note-disk o _ ∙ drop-disk s st)) live

  first_live-found :
      (disk : List FilePath) (group : List Action) (a : Action)
      → Has a group
      → path_exists a.path disk ≡ true
      → (q : Action) × (first_live recycle net disk group ≡ some q)
        × Has q group
        × (path_exists q.path disk ≡ true)
  unfolding first_live
  first_live-found disk [] a m live = absurd m
  first_live-found disk (b ∷ group) a m live = elim (Bool-cases (path_exists b.path disk)) [
    | inl here ↦ (b, rw here refl, inl refl, here)
    | inr away ↦ elim m [
      | inl same ↦
          let here = subst (λ (x : Action). path_exists x.path disk ≡ true) same live in
          let both = sym here ∙ away in cc
      | inr later ↦
          let (q, found, has, stands) = first_live-found disk group a later live in
          (q, rw away found, inr has, stands)
    ]
  ]

  promoted_self : (q a : Action) → a ≡ q → is_promoted recycle net (some q) a ≡ true
  unfolding is_promoted
  promoted_self q a same = let ids = ap (λ (x : Action). x.id) same in ground arith

  -- In a group, each action but the promoted one is on another path.
  promoted-Spares :
      (group : List Action) (q : Action)
      → OneAction group
      → Has q group
      → All (Spares (some q) q.path) group
  promoted-Spares group q one m =
      All-imp group
        (λ a has. elim (Bool-cases (same_path a.path q.path)) [
          | inl same ↦ inr (promoted_self q a (one a q has m (same_path-≡ a.path q.path same)))
          | inr apart ↦ inl apart
        ])
        (All-Has group)

  -- The path of the survivor, if it has a row.
  abbrev pub Survivor : List Action → Catalogue → FilePath → Type 0
  Survivor [] cat p = ⊥
  Survivor (a ∷ rest) cat p = survivor_path a.survivor_instance_id cat ≡ some p

  live_path :
      (o : Option FilePath) (disk : List FilePath)
      → is_live o disk ≡ true
      → (p : FilePath) × (o ≡ some p) × (path_exists p disk ≡ true)
  unfolding is_live
  live_path none disk h = cc
  live_path (some p) disk h = (p, refl, h)

  -- Where some target of a group is live, some copy is live after the group was applied.
  pub group_keeps :
      (group : List Action) (st : Applied) (a : Action)
      → Has a group
      → Live a.path st
      → OneAction group
      → ((p : FilePath) → Survivor group st.cat p → All (λ b. same_path b.path p ≡ false) group)
      → (p : FilePath) × Live p (apply_group recycle net group st)
        × (((b : Action) × Has b group × (p ≡ b.path)) ⊎ Survivor group st.cat p)
  unfolding apply_group apply_asset
  group_keeps [] st a m live one survivor = absurd m
  group_keeps (g ∷ group) st a m live one survivor =
      elim (Bool-cases (is_live (survivor_path g.survivor_instance_id st.cat) st.disk)) [
        | inl survives ↦
            let (p, found, stands) = live_path _ st.disk survives in
            rw survives (
              p,
              targets-Live none (g ∷ group) st p
                  (All-imp (g ∷ group) (λ b apart. inl apart) (survivor p found)) stands,
              inr found,
            )
        | inr vanished ↦
            let (q, found, has, stands) = first_live-found st.disk (g ∷ group) a m live in
            rw (vanished, found)
              (
                q.path,
                targets-Live (some q) (g ∷ group) _ q.path (promoted-Spares (g ∷ group) q one has)
                    (before-Live (some q) g.survivor_instance_id st q.path stands),
                inl (q, has, refl),
              )
      ]

  -- A path that no target of a group has is left alone.
  pub group-Live :
      (group : List Action) (st : Applied) (p : FilePath)
      → All (λ b. same_path b.path p ≡ false) group
      → Live p st
      → Live p (apply_group recycle net group st)
  unfolding apply_group apply_asset
  group-Live [] st p apart live = live
  group-Live (g ∷ group) st p apart live =
      let spared : (o : Option Action) → All (Spares o p) (g ∷ group) =
        λ o. All-imp (g ∷ group) (λ b away. inl away) apart in
      elim (Bool-cases (is_live (survivor_path g.survivor_instance_id st.cat) st.disk)) [
        | inl survives ↦ rw survives (targets-Live none (g ∷ group) st p (spared none) live)
        | inr vanished ↦ rw vanished (
            targets-Live _ (g ∷ group) _ p (spared _)
              (before-Live _ g.survivor_instance_id st p live))
      ]
