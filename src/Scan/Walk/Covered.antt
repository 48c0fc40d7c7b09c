-- ===== src/Scan/Walk/Covered.antt =====
-- What the walk says of a file that stands on the disk: it is a candidate, or it is suppressed.
use packrat.Prelude.{
  ℕ, ◌≡◌, refl, sym, ap, ◌∙◌, ◌⊎◌, inl, inr, Bool, true, false, not, ◌||◌, Option, none, some, List,
  [], ◌∷◌, ◌++◌, map, arith, Has, if◌then◌else◌, Bool-cases,
}
use mathlib.Core.List.{append_assoc}
use packrat.Paths.{
  FilePath, sep, join, normcase, is_below, same_path, same_path_refl, starts_with,
  starts_with-append, ends_sep, ends_sep-append, map-append,
}
use packrat.Scan.Walk.{
  Stat, Entries, nothing, broken, unlisted, folder, file, IgnoreSet, Candidate, Enumeration, Work,
  under_any, is_suppressed, is_junk_dirent, suppress, add_candidate, visit_stat, visit_file,
  note_pruned,
}

-- A path that is the folder, or stands below it.
abbrev pub Under : FilePath → FilePath → Type 0
Under dir p = (p ≡ dir) ⊎ ((q : FilePath) × (p ≡ dir ++ sep ∷ q))

-- A name that the disk gives is not empty and does not end with a separator.
abbrev pub Named : FilePath → Type 0
Named name = ((c : ℕ) × (q : FilePath) × (name ≡ c ∷ q)) × (ends_sep name ≡ false)

-- Nothing is known of a file whose stat raises; a junk file is none to be tracked.
abbrev pub Kept : Option Stat → Type 0
Kept none = Unit
Kept (some st) = is_junk_dirent st ≡ false

-- A file of the tree that is to be tracked: it is media, no rule for files ignores it, and it is not
-- junk. Behind an entry whose kind cannot be read, or a listing that raises, any path may be one.
abbrev pub Tracked : IgnoreSet → FilePath → List FilePath → Entries → FilePath → Type 0
Tracked ig dir rel nothing p = ⊥
Tracked ig dir rel (broken name rest) p = Under (join dir name) p ⊎ Tracked ig dir rel rest p
Tracked ig dir rel (unlisted name rest) p =
    (Named name × Under (join dir name) p) ⊎ Tracked ig dir rel rest p
Tracked ig dir rel (folder name inner rest) p =
    (Named name × Tracked ig (join dir name) (rel ++ name ∷ []) inner p) ⊎ Tracked ig dir rel rest p
Tracked ig dir rel (file name st rest) p =
    ((p ≡ join dir name)
      × (ig.is_media name ≡ true)
      × (ig.is_file_ignored (rel ++ name ∷ []) ≡ false)
      × Kept st)
    ⊎ Tracked ig dir rel rest p

join_plain : (dir name : FilePath) → ends_sep dir ≡ false → join dir name ≡ dir ++ sep ∷ name
unfolding join
join_plain dir name plain = rw (plain, join) refl

sep_cons : (c : ℕ) (q : FilePath) → ends_sep (sep ∷ c ∷ q) ≡ ends_sep (c ∷ q)
unfolding ends_sep
sep_cons c q = refl

pub ends_sep-join :
    (dir name : FilePath) → ends_sep dir ≡ false → Named name → ends_sep (join dir name) ≡ false
ends_sep-join dir name plain ((c, q, e), ends) =
    ap ends_sep (join_plain dir name plain)
    ∙ (ends_sep-append dir sep name
        ∙ (ap (λ n. ends_sep (sep ∷ n)) e ∙ (sep_cons c q ∙ (sym (ap ends_sep e) ∙ ends))))

pub Under-join :
    (dir name p : FilePath) → ends_sep dir ≡ false → Under (join dir name) p → Under dir p
Under-join dir name p plain (inl e) = inr (name, e ∙ join_plain dir name plain)
Under-join dir name p plain (inr (q, e)) = inr (
  name ++ sep ∷ q,
  e
      ∙ (ap (λ t. t ++ sep ∷ q) (join_plain dir name plain)
          ∙ append_assoc dir (sep ∷ name) (sep ∷ q)),
)

pub Tracked-Under :
    (ig : IgnoreSet) (dir : FilePath) (rel : List FilePath) (es : Entries) (p : FilePath)
    → ends_sep dir ≡ false
    → Tracked ig dir rel es p
    → Under dir p
Tracked-Under ig dir rel nothing p plain h = absurd h
Tracked-Under ig dir rel (broken name rest) p plain (inl h) = Under-join dir name p plain h
Tracked-Under ig dir rel (broken name rest) p plain (inr h) =
    Tracked-Under ig dir rel rest p plain h
Tracked-Under ig dir rel (unlisted name rest) p plain (inl h) = Under-join dir name p plain h.1
Tracked-Under ig dir rel (unlisted name rest) p plain (inr h) =
    Tracked-Under ig dir rel rest p plain h
Tracked-Under ig dir rel (folder name inner rest) p plain (inl h) = Under-join dir name p plain (
    Tracked-Under ig (join dir name) (rel ++ name ∷ []) inner p (ends_sep-join dir name plain h.0)
      h.1)
Tracked-Under ig dir rel (folder name inner rest) p plain (inr h) =
    Tracked-Under ig dir rel rest p plain h
Tracked-Under ig dir rel (file name st rest) p plain (inl h) = Under-join dir name p plain (inl h.0)
Tracked-Under ig dir rel (file name st rest) p plain (inr h) =
    Tracked-Under ig dir rel rest p plain h

or_true : (a b : Bool) → b ≡ true → (a || b) ≡ true
or_true true b h = refl
or_true false b h = h

module _ (lower : ℕ → ℕ) (keeps_sep : lower sep ≡ sep) where
  normcase-sep : (q : FilePath) → normcase lower (sep ∷ q) ≡ sep ∷ normcase lower q
  unfolding normcase
  normcase-sep q = ap (λ c. c ∷ map lower q) keeps_sep

  Under-is_below :
      (dir p : FilePath) → Under dir p → is_below (normcase lower p) (normcase lower dir) ≡ true
  unfolding is_below
  Under-is_below dir p (inl e) = rw e (rw (same_path_refl (normcase lower dir)) refl)
  Under-is_below dir p (inr (q, e)) =
      let parts : normcase lower p ≡ (normcase lower dir ++ sep ∷ []) ++ normcase lower q =
        ap (normcase lower) e
        ∙ (map-append lower dir (sep ∷ q)
            ∙ (ap (λ t. normcase lower dir ++ t) (normcase-sep q)
                ∙ sym (append_assoc (normcase lower dir) (sep ∷ []) (normcase lower q)))) in
      let prefix : starts_with (normcase lower dir ++ sep ∷ []) (normcase lower p) ≡ true =
        ap (starts_with (normcase lower dir ++ sep ∷ [])) parts
        ∙ starts_with-append (normcase lower dir ++ sep ∷ []) (normcase lower q) in
      or_true (same_path (normcase lower p) (normcase lower dir)) _ prefix

under_any-append :
    (p : FilePath) (xs ys : List FilePath)
    → under_any p (xs ++ ys) ≡ (under_any p xs || under_any p ys)
unfolding under_any
under_any-append p [] ys = refl
under_any-append p (x ∷ xs) ys = ground (arith, under_any-append p xs ys)

under_any-snoc :
    (p s : FilePath) (xs : List FilePath) → is_below p s ≡ true → under_any p (xs ++ s ∷ []) ≡ true
unfolding under_any
under_any-snoc p s [] h = rw h refl
under_any-snoc p s (x ∷ xs) h = or_true (is_below p x) _ (under_any-snoc p s xs h)

under_any-more :
    (p s : FilePath) (xs : List FilePath)
    → under_any p xs ≡ true
    → under_any p (xs ++ s ∷ []) ≡ true
unfolding under_any
under_any-more p s [] h = cc
under_any-more p s (x ∷ xs) h = ground (arith, under_any-more p s xs)

Has-append : (c : Candidate) (xs ys : List Candidate) → Has c xs → Has c (xs ++ ys)
Has-append c [] ys m = absurd m
Has-append c (x ∷ xs) ys (inl e) = inl e
Has-append c (x ∷ xs) ys (inr m) = inr (Has-append c xs ys m)

Has-snoc : (c : Candidate) (xs : List Candidate) → Has c (xs ++ c ∷ [])
Has-snoc c [] = inl refl
Has-snoc c (x ∷ xs) = inr (Has-snoc c xs)

Has_push : (w v : Work) (stack : List Work) → Has w stack → Has w (v ∷ stack)
Has_push w v stack m = inr m

module _ (lower : ℕ → ℕ) (keeps_sep : lower sep ≡ sep) (ig : IgnoreSet) where
  -- The path is a candidate, or the deletions leave it alone.
  abbrev pub Covered : Enumeration → FilePath → Type 0
  Covered en p =
      ((c : Candidate) × Has c en.candidates × (c.path ≡ p)) ⊎ (is_suppressed lower en p ≡ true)

  pub suppress-Covered :
      (dir : FilePath) (en : Enumeration) (p : FilePath)
      → Covered en p
      → Covered (suppress lower ig dir en) p
  unfolding suppress is_suppressed
  suppress-Covered dir en p (inl found) = inl found
  suppress-Covered dir en p (inr h) =
      inr (under_any-more (normcase lower p) (normcase lower dir) en.suppressed h)

  pub is_suppressed-suppress :
      (dir : FilePath) (en : Enumeration) (p : FilePath)
      → Under dir p
      → is_suppressed lower (suppress lower ig dir en) p ≡ true
  unfolding suppress is_suppressed
  is_suppressed-suppress dir en p h =
      under_any-snoc (normcase lower p) (normcase lower dir) en.suppressed
        (Under-is_below lower keeps_sep dir p h)

  pub suppress-Under :
      (dir : FilePath) (en : Enumeration) (p : FilePath)
      → Under dir p
      → Covered (suppress lower ig dir en) p
  suppress-Under dir en p h = inr (is_suppressed-suppress dir en p h)

  pub visit_file-Covered :
      (dir name : FilePath) (rel : List FilePath) (st : Option Stat) (en : Enumeration)
      (p : FilePath)
      → Covered en p
      → Covered (visit_file lower ig dir name rel st en) p
  unfolding visit_file visit_stat add_candidate is_suppressed
  visit_file-Covered dir name rel st en p h =
      elim (Bool-cases (not (ig.is_media name) || ig.is_file_ignored rel)) [
        | inl out ↦ rw out h
        | inr considered ↦ rw considered (by_stat st)
      ]
    where
      by_junk :
          (st : Stat) (b : Bool)
          → Covered (if b then en else add_candidate lower ig (join dir name) rel st en) p
      by_junk st true = h
      by_junk st false = elim h [
        | inl found ↦ inl (found.0, Has-append found.0 en.candidates _ found.1, found.2)
        | inr s ↦ inr s
      ]

      by_stat : (st : Option Stat) → Covered (visit_stat lower ig dir name rel st en) p
      by_stat none = suppress-Covered dir en p h
      by_stat (some st) = by_junk st (is_junk_dirent st)

  pub visit_file-found :
      (dir name : FilePath) (rel : List FilePath) (st : Option Stat) (en : Enumeration)
      → ends_sep dir ≡ false
      → ig.is_media name ≡ true
      → ig.is_file_ignored rel ≡ false
      → Kept st
      → Covered (visit_file lower ig dir name rel st en) (join dir name)
  unfolding visit_file visit_stat add_candidate is_suppressed
  visit_file-found dir name rel none en plain media passes kept =
      rw (media, passes)
        (suppress-Under dir en (join dir name) (inr (name, join_plain dir name plain)))
  visit_file-found dir name rel (some st) en plain media passes kept =
      rw (media, passes, kept) (inl (_, Has-snoc _ en.candidates, refl))

  pub note_pruned-Covered :
      (w : Work) (en : Enumeration) (p : FilePath)
      → Covered en p
      → Covered (note_pruned lower ig w en) p
  unfolding note_pruned
  note_pruned-Covered w en p h = elim (Bool-cases (ig.is_dir_pruned w.rel)) [
    | inl pruned ↦ rw pruned (suppress-Covered w.dir en p h)
    | inr open_dir ↦ rw open_dir h
  ]
