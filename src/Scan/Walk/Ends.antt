-- ===== src/Scan/Walk/Ends.antt =====
-- The walk ends.
use packrat.Prelude.{
  ℕ, zero, suc, ◌+◌, ◌≤◌, ◌<◌, ◌≡◌, refl, Option, none, some, List, [], ◌∷◌, ◌++◌, arith,
}
use packrat.Paths.{FilePath, join}
use packrat.Scan.Walk.{
  Entries, nothing, broken, unlisted, folder, file, IgnoreSet, Enumeration, Work, push, note_pruned,
  visit_entries, suppress, walk, folders, enumerate_root,
}

-- The folders that are still to be listed.
abbrev cost : Option Entries → ℕ
cost none = 1
cost (some entries) = suc (folders entries)

abbrev folders_of : Option Entries → ℕ
folders_of none = 0
folders_of (some entries) = folders entries

cost_of : (o : Option Entries) → suc (folders_of o) ≡ cost o
cost_of none = refl
cost_of (some entries) = refl

abbrev pub total : List Work → ℕ
total [] = 0
total (w ∷ stack) = cost w.listing + total stack

module _ (lower : ℕ → ℕ) (ig : IgnoreSet) where
  total-push :
      (w : Work) (stack : List Work) → total (push lower ig w stack) ≤ cost w.listing + total stack
  unfolding push
  total-push w stack = ground arith

  total-visit_entries :
      (dir : FilePath) (rel : List FilePath) (es : Entries) (stack : List Work) (en : Enumeration)
      → total (visit_entries lower ig dir rel es stack en).0 ≤ folders es + total stack
  unfolding visit_entries folders
  total-visit_entries dir rel nothing stack en = omega arith
  total-visit_entries dir rel (broken name rest) stack en = total-visit_entries dir rel rest stack _
  total-visit_entries dir rel (unlisted name rest) stack en =
      let w : Work = record { dir = join dir name; rel = rel ++ name ∷ []; listing = none } in
      omega (
        arith,
        total-push w stack,
        total-visit_entries dir rel rest (push lower ig w stack) (note_pruned lower ig w en),
      )
  total-visit_entries dir rel (folder name inner rest) stack en =
      let w : Work = record { dir = join dir name; rel = rel ++ name ∷ []; listing = some inner } in
      omega (
        arith,
        total-push w stack,
        total-visit_entries dir rel rest (push lower ig w stack) (note_pruned lower ig w en),
      )
  total-visit_entries dir rel (file name st rest) stack en =
      total-visit_entries dir rel rest stack _

  walk_work :
      (fuel : ℕ) (w : Work) (stack : List Work) (en : Enumeration) (o : Option Entries)
      → w.listing ≡ o
      → ((next : List Work) (seen : Enumeration)
          → total next ≤ folders_of o + total stack
          → (done : Enumeration) × (walk lower ig fuel next seen ≡ some done))
      → (done : Enumeration) × (walk lower ig (suc fuel) (w ∷ stack) en ≡ some done)
  unfolding walk
  walk_work fuel w stack en none e k =
      let (done, ends) = k stack (suppress lower ig w.dir en) (omega arith) in
      rw (e, walk) (done, ends)
  walk_work fuel w stack en (some entries) e k =
      let next = visit_entries lower ig w.dir w.rel entries stack en in
      let (done, ends) = k next.0 next.1 (total-visit_entries w.dir w.rel entries stack en) in
      rw (e, walk) (done, ends)

  pub walk_returns :
      (fuel : ℕ) (stack : List Work) (en : Enumeration)
      → total stack < fuel
      → (done : Enumeration) × (walk lower ig fuel stack en ≡ some done)
  unfolding walk
  walk_returns zero stack en enough = absurd (omega (arith, enough))
  walk_returns (suc fuel) [] en enough = (en, refl)
  walk_returns (suc fuel) (w ∷ stack) en enough =
      walk_work fuel w stack en w.listing refl
        (λ next seen le. walk_returns fuel next seen (omega (arith, enough, le, cost_of w.listing)))

  -- The fuel of the enumeration is enough for every tree.
  pub enumerate_root_returns :
      (root : FilePath) (listing : Option Entries)
      → (en : Enumeration) × (enumerate_root lower ig root listing ≡ some en)
  unfolding enumerate_root
  enumerate_root_returns root none = (_, refl)
  enumerate_root_returns root (some entries) = walk_returns _ _ _ (omega arith)
