-- ===== src/Scan/Walk/Found.antt =====
-- Every file to be tracked is found by the walk of the whole tree.
use packrat.Prelude.{
  ℕ, zero, suc, ◌≡◌, refl, sym, ◌∙◌, ◌⊎◌, inl, inr, true, false, Option, none, some, List, [], ◌∷◌,
  ◌++◌, Has, Bool-cases,
}
use mathlib.Core.Path.{subst}
use packrat.Paths.{FilePath, sep, join, ends_sep}
use packrat.Scan.Walk.{
  Entries, nothing, broken, unlisted, folder, file, IgnoreSet, Enumeration, is_suppressed, Work,
  suppress, visit_file, push, note_pruned, visit_entries, walk, nothing_found, enumerate_root,
}
use packrat.Scan.Walk.Covered.{
  Under, Tracked, Tracked-Under, ends_sep-join, Under-join, Covered, suppress-Covered,
  suppress-Under, is_suppressed-suppress, visit_file-Covered, visit_file-found, note_pruned-Covered,
}

module _ (lower : ℕ → ℕ) (keeps_sep : lower sep ≡ sep) (ig : IgnoreSet) where
  abbrev Inside : Option Entries → FilePath → List FilePath → FilePath → Type 0
  Inside none dir rel p = Under dir p
  Inside (some es) dir rel p = Tracked ig dir rel es p

  -- A folder of the stack in which the path stands.
  abbrev Waiting : Work → FilePath → Type 0
  Waiting w p = (ends_sep w.dir ≡ false) × Inside w.listing w.dir w.rel p

  push-Has : (w v : Work) (stack : List Work) → Has w stack → Has w (push lower ig v stack)
  unfolding push
  push-Has w v stack m = elim (Bool-cases (ig.is_dir_pruned v.rel)) [
    | inl pruned ↦ rw pruned m
    | inr kept ↦ rw kept (inr m)
  ]

  visit_entries-Has :
      (dir : FilePath) (rel : List FilePath) (es : Entries) (stack : List Work) (en : Enumeration)
      (w : Work)
      → Has w stack
      → Has w (visit_entries lower ig dir rel es stack en).0
  unfolding visit_entries
  visit_entries-Has dir rel nothing stack en w m = m
  visit_entries-Has dir rel (broken name rest) stack en w m =
      visit_entries-Has dir rel rest stack _ w m
  visit_entries-Has dir rel (unlisted name rest) stack en w m =
      visit_entries-Has dir rel rest _ _ w (push-Has w _ stack m)
  visit_entries-Has dir rel (folder name inner rest) stack en w m =
      visit_entries-Has dir rel rest _ _ w (push-Has w _ stack m)
  visit_entries-Has dir rel (file name st rest) stack en w m =
      visit_entries-Has dir rel rest stack _ w m

  visit_entries-Covered :
      (dir : FilePath) (rel : List FilePath) (es : Entries) (stack : List Work) (en : Enumeration)
      (p : FilePath)
      → Covered lower keeps_sep ig en p
      → Covered lower keeps_sep ig (visit_entries lower ig dir rel es stack en).1 p
  unfolding visit_entries
  visit_entries-Covered dir rel nothing stack en p h = h
  visit_entries-Covered dir rel (broken name rest) stack en p h =
      visit_entries-Covered dir rel rest stack _ p (suppress-Covered lower keeps_sep ig dir en p h)
  visit_entries-Covered dir rel (unlisted name rest) stack en p h =
      visit_entries-Covered dir rel rest _ _ p (note_pruned-Covered lower keeps_sep ig _ en p h)
  visit_entries-Covered dir rel (folder name inner rest) stack en p h =
      visit_entries-Covered dir rel rest _ _ p (note_pruned-Covered lower keeps_sep ig _ en p h)
  visit_entries-Covered dir rel (file name st rest) stack en p h =
      visit_entries-Covered dir rel rest stack _ p
        (visit_file-Covered lower keeps_sep ig dir name (rel ++ name ∷ []) st en p h)

  abbrev Met : List Work × Enumeration → FilePath → Type 0
  Met r p = Covered lower keeps_sep ig r.1 p ⊎ ((w : Work) × Has w r.0 × Waiting w p)

  -- A folder that is met is pushed, or pruned with all that stands below it.
  push-Met :
      (w : Work) (stack : List Work) (en : Enumeration) (p : FilePath)
      → Under w.dir p
      → Waiting w p
      → Met (push lower ig w stack, note_pruned lower ig w en) p
  unfolding push note_pruned
  push-Met w stack en p under waiting = elim (Bool-cases (ig.is_dir_pruned w.rel)) [
    | inl pruned ↦ rw pruned (inl (suppress-Under lower keeps_sep ig w.dir en p under))
    | inr kept ↦ rw kept (inr (w, inl refl, waiting))
  ]

  Met-later :
      (dir : FilePath) (rel : List FilePath) (es : Entries) (r : List Work × Enumeration)
      (p : FilePath)
      → Met r p
      → Met (visit_entries lower ig dir rel es r.0 r.1) p
  Met-later dir rel es r p (inl h) = inl (visit_entries-Covered dir rel es r.0 r.1 p h)
  Met-later dir rel es r p (inr (w, m, waiting)) =
      inr (w, visit_entries-Has dir rel es r.0 r.1 w m, waiting)

  visit_entries-Met :
      (dir : FilePath) (rel : List FilePath) (es : Entries) (stack : List Work) (en : Enumeration)
      (p : FilePath)
      → ends_sep dir ≡ false
      → Tracked ig dir rel es p
      → Met (visit_entries lower ig dir rel es stack en) p
  unfolding visit_entries
  visit_entries-Met dir rel nothing stack en p plain h = absurd h
  visit_entries-Met dir rel (broken name rest) stack en p plain (inl h) =
      Met-later dir rel rest (stack, suppress lower ig dir en) p
        (inl (suppress-Under lower keeps_sep ig dir en p (Under-join dir name p plain h)))
  visit_entries-Met dir rel (broken name rest) stack en p plain (inr h) =
      visit_entries-Met dir rel rest stack _ p plain h
  visit_entries-Met dir rel (unlisted name rest) stack en p plain (inl h) =
      Met-later dir rel rest _ p (
        push-Met (record { dir = join dir name; rel = rel ++ name ∷ []; listing = none }) stack en p
          h.1 (ends_sep-join dir name plain h.0, h.1))
  visit_entries-Met dir rel (unlisted name rest) stack en p plain (inr h) =
      visit_entries-Met dir rel rest _ _ p plain h
  visit_entries-Met dir rel (folder name inner rest) stack en p plain (inl h) =
      let sub = ends_sep-join dir name plain h.0 in
      Met-later dir rel rest _ p (
        push-Met (record { dir = join dir name; rel = rel ++ name ∷ []; listing = some inner })
          stack en p (Tracked-Under ig (join dir name) (rel ++ name ∷ []) inner p sub h.1)
          (sub, h.1))
  visit_entries-Met dir rel (folder name inner rest) stack en p plain (inr h) =
      visit_entries-Met dir rel rest _ _ p plain h
  visit_entries-Met dir rel (file name st rest) stack en p plain (inl h) =
      Met-later dir rel rest (stack, visit_file lower ig dir name (rel ++ name ∷ []) st en) p
        (inl (
          subst (Covered lower keeps_sep ig (visit_file lower ig dir name (rel ++ name ∷ []) st en))
            (sym h.0)
            (visit_file-found lower keeps_sep ig dir name (rel ++ name ∷ []) st en plain h.1 h.2
              h.3)))
  visit_entries-Met dir rel (file name st rest) stack en p plain (inr h) =
      visit_entries-Met dir rel rest stack _ p plain h

  abbrev Done : ℕ → List Work → Enumeration → FilePath → Type 0
  Done fuel stack en p =
      (done : Enumeration)
      → walk lower ig fuel stack en ≡ some done
      → Covered lower keeps_sep ig done p

  walk_unlisted :
      (fuel : ℕ) (v : Work) (stack : List Work) (en : Enumeration)
      → v.listing ≡ none
      → walk lower ig (suc fuel) (v ∷ stack) en
        ≡ walk lower ig fuel stack (suppress lower ig v.dir en)
  unfolding walk
  walk_unlisted fuel v stack en e = rw (e, walk) refl

  walk_listed :
      (fuel : ℕ) (v : Work) (stack : List Work) (en : Enumeration) (es : Entries)
      → v.listing ≡ some es
      → walk lower ig (suc fuel) (v ∷ stack) en
        ≡ walk lower ig fuel
            (visit_entries lower ig v.dir v.rel es stack en).0
            (visit_entries lower ig v.dir v.rel es stack en).1
  unfolding walk
  walk_listed fuel v stack en es e = rw (e, walk) refl

  Waiting-top :
      (w v : Work) (p : FilePath) (o : Option Entries)
      → w ≡ v
      → v.listing ≡ o
      → Waiting w p
      → (ends_sep v.dir ≡ false) × Inside o v.dir v.rel p
  Waiting-top w v p o same e waiting =
      let here : Waiting v p = subst (λ x. Waiting x p) same waiting in
      (here.0, subst (λ l. Inside l v.dir v.rel p) e here.1)

  Met-unlisted :
      (v : Work) (stack : List Work) (en : Enumeration) (p : FilePath)
      → v.listing ≡ none
      → Met (v ∷ stack, en) p
      → Met (stack, suppress lower ig v.dir en) p
  Met-unlisted v stack en p e (inl covered) =
      inl (suppress-Covered lower keeps_sep ig v.dir en p covered)
  Met-unlisted v stack en p e (inr (w, inl same, waiting)) =
      inl (suppress-Under lower keeps_sep ig v.dir en p (Waiting-top w v p none same e waiting).1)
  Met-unlisted v stack en p e (inr (w, inr m, waiting)) = inr (w, m, waiting)

  Met-listed :
      (v : Work) (stack : List Work) (en : Enumeration) (p : FilePath) (es : Entries)
      → v.listing ≡ some es
      → Met (v ∷ stack, en) p
      → Met (visit_entries lower ig v.dir v.rel es stack en) p
  Met-listed v stack en p es e (inl covered) =
      inl (visit_entries-Covered v.dir v.rel es stack en p covered)
  Met-listed v stack en p es e (inr (w, inl same, waiting)) =
      let here = Waiting-top w v p (some es) same e waiting in
      visit_entries-Met v.dir v.rel es stack en p here.0 here.1
  Met-listed v stack en p es e (inr (w, inr m, waiting)) =
      inr (w, visit_entries-Has v.dir v.rel es stack en w m, waiting)

  -- The folder on top of the stack is listed: what stands in it is met, what waits below it stays.
  step-Met :
      (fuel : ℕ) (v : Work) (stack : List Work) (en : Enumeration) (p : FilePath)
      (o : Option Entries)
      → v.listing ≡ o
      → ((next : List Work) (seen : Enumeration) → Met (next, seen) p → Done fuel next seen p)
      → Met (v ∷ stack, en) p
      → Done (suc fuel) (v ∷ stack) en p
  step-Met fuel v stack en p none e later h done ends =
      later stack (suppress lower ig v.dir en) (Met-unlisted v stack en p e h) done
        (sym (walk_unlisted fuel v stack en e) ∙ ends)
  step-Met fuel v stack en p (some es) e later h done ends =
      later _ _ (Met-listed v stack en p es e h) done
        (sym (walk_listed fuel v stack en es e) ∙ ends)

  walk-Met :
      (fuel : ℕ) (stack : List Work) (en : Enumeration) (p : FilePath)
      → Met (stack, en) p
      → Done fuel stack en p
  unfolding walk
  walk-Met zero stack en p h done e = cc
  walk-Met (suc fuel) [] en p (inl covered) done e =
      let same : en ≡ done = cc in subst (λ x. Covered lower keeps_sep ig x p) same covered
  walk-Met (suc fuel) [] en p (inr (w, m, waiting)) done e = absurd m
  walk-Met (suc fuel) (v ∷ stack) en p h done e =
      step-Met fuel v stack en p v.listing refl (λ next seen met. walk-Met fuel next seen p met) h
        done e

  -- When the enumeration of a root ends, every file below the root that is to be tracked is one of
  -- its candidates or is suppressed, so that a failed listing or stat never makes a file look gone.
  -- The root does not end with a separator, and the change of case leaves the separator alone.
  pub Tracked-Covered :
      (root : FilePath) (entries : Entries) (p : FilePath) (done : Enumeration)
      → ends_sep root ≡ false
      → Tracked ig root [] entries p
      → enumerate_root lower ig root (some entries) ≡ some done
      → Covered lower keeps_sep ig done p
  unfolding enumerate_root
  Tracked-Covered root entries p done plain tracked ends =
      walk-Met _ _ (nothing_found lower ig) p (inr (_, inl refl, (plain, tracked))) done ends

  -- A root that cannot be listed is suppressed as a whole: every path below it is.
  pub offline_is_suppressed :
      (root p : FilePath) (done : Enumeration)
      → Under root p
      → enumerate_root lower ig root none ≡ some done
      → is_suppressed lower done p ≡ true
  unfolding enumerate_root is_suppressed suppress
  offline_is_suppressed root p done below ends =
      let same : record (suppress lower ig root (nothing_found lower ig)) { root_offline = true }
          ≡ done =
        cc in
      subst (λ x. is_suppressed lower x p ≡ true) same
        (is_suppressed-suppress lower keeps_sep ig root (nothing_found lower ig) p below)
