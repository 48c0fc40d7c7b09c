-- ===== src/Scan/Walk.antt =====
-- The enumeration of a root, enumerate_root of src/packrat/jobs/scan.py, and is_junk_dirent of
-- src/packrat/ignore.py. What the disk answers is a tree: a folder whose listing raises, an entry
-- whose kind cannot be read and a file whose stat raises are marked there. The ignore rules are an
-- interface, on the segments of a path below the root; `lower` is the change of case of normcase. The
-- tree is finite: a symbolic link is no folder for is_dir(follow_symlinks=False), and a junction that
-- leads back to a folder above it, which is one, is not modelled.
pub mod Covered
pub mod Drive
pub mod Ends
pub mod Found
use packrat.Prelude.{
  ℕ, zero, suc, ◌+◌, ◌-◌, ◌*◌, ◌/◌, ◌%◌, ◌≤◌, ◌<◌, min, max, ◌≡◌, refl, sym, ap, ◌∙◌, ◌≢◌, ◌⊎◌, inl,
  inr, Bool, true, false, not, ◌&&◌, ◌||◌, Option, none, some, List, [], ◌∷◌, ◌++◌, map, arith,
  length, All, All-imp, All-snoc, All-append, All-at, Has, ltb, leb, ◌==◌, if◌then◌else◌,
  Bool-cases, Option-cases, ==_iff, ==_false, leb→le,
}
use packrat.Paths.{FilePath, join, normcase, is_below}

pub record Stat : Type 0 where
  pub size : ℕ
  pub mtime : ℕ
  pub is_hidden : Bool
  pub is_system : Bool

pub data Entries : Type 0 where
  nothing : Entries
  broken : FilePath → Entries → Entries
  unlisted : FilePath → Entries → Entries
  folder : FilePath → Entries → Entries → Entries
  file : FilePath → Option Stat → Entries → Entries

pub record IgnoreSet : Type 0 where
  pub is_media : FilePath → Bool
  pub is_file_ignored : List FilePath → Bool
  pub is_dir_pruned : List FilePath → Bool

pub record Candidate : Type 0 where
  pub path : FilePath
  pub rel : List FilePath
  pub size : ℕ
  pub mtime : ℕ

-- The set of suppressed folders is a list, in the order of their insertion.
pub record Enumeration : Type 0 where
  pub candidates : List Candidate
  pub suppressed : List FilePath
  pub root_offline : Bool

unfoldable pub under_any : FilePath → List FilePath → Bool
under_any p [] = false
under_any p (s ∷ rest) = is_below p s || under_any p rest

unfoldable pub is_suppressed : (ℕ → ℕ) → Enumeration → FilePath → Bool
is_suppressed lower en path = under_any (normcase lower path) en.suppressed

unfoldable pub is_junk_dirent : Stat → Bool
is_junk_dirent st = st.is_hidden || st.is_system || (st.size == 0)

-- An item of the work stack, with what the listing of the folder will give.
pub record Work : Type 0 where
  pub dir : FilePath
  pub rel : List FilePath
  pub listing : Option Entries

-- How many folders stand in a listing.
unfoldable pub folders : Entries → ℕ
folders nothing = 0
folders (broken name rest) = folders rest
folders (unlisted name rest) = suc (folders rest)
folders (folder name inner rest) = suc (folders inner + folders rest)
folders (file name st rest) = folders rest

module _ (lower : ℕ → ℕ) (ig : IgnoreSet) where
  unfoldable pub suppress : FilePath → Enumeration → Enumeration
  suppress dir en = record en { suppressed = en.suppressed ++ normcase lower dir ∷ [] }

  unfoldable pub add_candidate : FilePath → List FilePath → Stat → Enumeration → Enumeration
  add_candidate path rel st en = record en {
    candidates =
        en.candidates ++ record { path = path; rel = rel; size = st.size; mtime = st.mtime } ∷ [];
  }

  unfoldable pub visit_stat :
      FilePath → FilePath → List FilePath → Option Stat → Enumeration → Enumeration
  visit_stat dir name rel none en = suppress dir en
  visit_stat dir name rel (some st) en =
      if is_junk_dirent st then en else add_candidate (join dir name) rel st en

  unfoldable pub visit_file :
      FilePath → FilePath → List FilePath → Option Stat → Enumeration → Enumeration
  visit_file dir name rel st en =
      if not (ig.is_media name) || ig.is_file_ignored rel then en else visit_stat dir name rel st en

  unfoldable pub push : Work → List Work → List Work
  push w stack = if ig.is_dir_pruned w.rel then stack else w ∷ stack

  unfoldable pub note_pruned : Work → Enumeration → Enumeration
  note_pruned w en = if ig.is_dir_pruned w.rel then suppress w.dir en else en

  -- The loop over the entries of one folder; the stack's top is its head.
  unfoldable pub visit_entries :
      FilePath → List FilePath → Entries → List Work → Enumeration → List Work × Enumeration
  visit_entries dir rel nothing stack en = (stack, en)
  visit_entries dir rel (broken name rest) stack en =
      visit_entries dir rel rest stack (suppress dir en)
  visit_entries dir rel (unlisted name rest) stack en =
      let w : Work = record { dir = join dir name; rel = rel ++ name ∷ []; listing = none } in
      visit_entries dir rel rest (push w stack) (note_pruned w en)
  visit_entries dir rel (folder name inner rest) stack en =
      let w : Work = record { dir = join dir name; rel = rel ++ name ∷ []; listing = some inner } in
      visit_entries dir rel rest (push w stack) (note_pruned w en)
  visit_entries dir rel (file name st rest) stack en =
      visit_entries dir rel rest stack (visit_file dir name (rel ++ name ∷ []) st en)

  -- The while loop, on fuel.
  unfoldable pub walk : ℕ → List Work → Enumeration → Option Enumeration
  walk zero stack en = none
  walk (suc fuel) [] en = some en
  walk (suc fuel) (w ∷ stack) en = elim w.listing [
    | none ↦ walk fuel stack (suppress w.dir en)
    | some entries ↦
        let next = visit_entries w.dir w.rel entries stack en in walk fuel next.0 next.1
  ]

  abbrev pub nothing_found : Enumeration
  nothing_found = record { candidates = []; suppressed = []; root_offline = false }

  -- A root whose own listing raises is offline.
  unfoldable pub enumerate_root : FilePath → Option Entries → Option Enumeration
  enumerate_root root none = some (record (suppress root nothing_found) { root_offline = true })
  enumerate_root root (some entries) =
      walk (folders entries + 2) (record { dir = root; rel = []; listing = some entries } ∷ [])
        nothing_found
