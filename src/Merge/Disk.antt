-- ===== src/Merge/Disk.antt =====
-- What merge does to files: _place_copy of src/packrat/jobs/merge.py, on a list of paths. Python's path
-- functions and the outcome of each call of the operating system are parameters. A path stands here in its
-- normal case, os.path.normcase, so that equal paths are those at which Windows finds the same file;
-- what merge appends to a name, a number and ".packrat-part", has no other case.
pub mod Keeps
pub mod Names
use packrat.Prelude.{
  ℕ, zero, suc, ◌+◌, Bool, true, false, ◌&&◌, Option, none, some, List, [], ◌∷◌, ◌++◌, length, ◌==◌,
  if◌then◌else◌,
}
pub use packrat.Paths.{FilePath}
unfoldable pub use packrat.Paths.{same_path}

-- What stands at a path; the content of a folder, or of a file that cannot be read, is `none`.
pub record File : Type 0 where
  pub path : FilePath
  pub content : Option ℕ

unfoldable pub read : FilePath → List File → Option (Option ℕ)
read p [] = none
read p (f ∷ fs) = if same_path f.path p then some f.content else read p fs

unfoldable pub exists : FilePath → List File → Bool
exists p fs = elim (read p fs) [ none ↦ false | some c ↦ true ]

unfoldable pub write : FilePath → Option ℕ → List File → List File
write p c [] = record { path = p; content = c } ∷ []
write p c (f ∷ fs) = if same_path f.path p then record f { content = c } ∷ fs else f ∷ write p c fs

unfoldable pub remove : FilePath → List File → List File
remove p [] = []
remove p (f ∷ fs) = let rest = remove p fs in if same_path f.path p then rest else f ∷ rest

-- shutil.copyfile ends and the copy can be read back, or one of the two raises and something may be
-- left behind.
pub data CopyOutcome : Type 0 where
  whole : ℕ → CopyOutcome
  broken : Option ℕ → CopyOutcome

-- The calls below merge: BLAKE3 of a content, os.path.join of the destination, os.path.splitext,
-- str of a number, and the outcomes of os.makedirs, of copying the file at a source-relative path,
-- of os.remove and of os.replace.
pub record System : Type 0 where
  pub blake3 : ℕ → ℕ
  pub target_of : FilePath → FilePath
  pub base_of : FilePath → FilePath
  pub ext_of : FilePath → FilePath
  pub shown : ℕ → FilePath
  pub makes_dirs : FilePath → Bool
  pub copy_of : FilePath → CopyOutcome
  pub removes : FilePath → Bool
  pub replaces : FilePath → Bool

pub data CopyKind : Type 0 where
  fresh identical renamed : CopyKind

pub record Placed : Type 0 where
  pub dest_path : FilePath
  pub kind : CopyKind

-- ".packrat-part"
abbrev pub part_suffix : FilePath
part_suffix = 46 ∷ 112 ∷ 97 ∷ 99 ∷ 107 ∷ 114 ∷ 97 ∷ 116 ∷ 45 ∷ 112 ∷ 97 ∷ 114 ∷ 116 ∷ []

abbrev pub part_of : FilePath → FilePath
part_of target = target ++ part_suffix

unfoldable pub holds_hash : ℕ → Option ℕ → Bool
holds_hash content_hash none = false
holds_hash content_hash (some h) = h == content_hash

module _ (sys : System) where
  unfoldable pub hash_or_none : FilePath → List File → Option ℕ
  hash_or_none p fs = elim (read p fs) [
    | none ↦ none
    | some c ↦ elim c [ none ↦ none | some bytes ↦ some (sys.blake3 bytes) ]
  ]

  -- f"{base} ({n}){ext}"
  unfoldable pub numbered : FilePath → ℕ → FilePath
  numbered target n =
      sys.base_of target ++ ((32 ∷ 40 ∷ []) ++ (sys.shown n ++ ((41 ∷ []) ++ sys.ext_of target)))

  -- The while loop, on fuel.
  unfoldable pub free_name : ℕ → ℕ → FilePath → List File → Option FilePath
  free_name zero n target fs = none
  free_name (suc fuel) n target fs =
      let rest = free_name fuel (n + 1) target fs in
      if exists (numbered target n) fs then rest else some (numbered target n)

  -- With the temporary file written: verify it and put it in its place.
  unfoldable pub verify : ℕ → FilePath → ℕ → CopyKind → List File → List File × Option Placed
  verify content_hash target bytes kind fs =
      if sys.blake3 bytes == content_hash
      then (if sys.replaces (part_of target)
          then (
            write target (some bytes) (remove (part_of target) fs),
            some (record { dest_path = target; kind = kind }),
          )
          else (fs, none))
      else ((if sys.removes (part_of target) then remove (part_of target) fs else fs), none)

  unfoldable pub settle :
      ℕ → FilePath → CopyKind → CopyOutcome → List File → List File × Option Placed
  settle content_hash target kind (whole bytes) fs =
      verify content_hash target bytes kind (write (part_of target) (some bytes) fs)
  settle content_hash target kind (broken none) fs = (fs, none)
  settle content_hash target kind (broken (some bytes)) fs =
      (write (part_of target) (some bytes) fs, none)

  unfoldable pub copy_to :
      ℕ → FilePath → FilePath → CopyKind → List File → List File × Option Placed
  copy_to content_hash rel target kind fs =
      if sys.makes_dirs target
      then settle content_hash target kind (sys.copy_of rel) fs
      else (fs, none)

  -- The failed branches are the exceptions that the caller catches.
  unfoldable pub place_copy : ℕ → FilePath → List File → List File × Option Placed
  place_copy content_hash rel fs =
      let target = sys.target_of rel in
      if exists target fs
      then (if holds_hash content_hash (hash_or_none target fs)
          then (fs, some (record { dest_path = target; kind = identical }))
          else (elim (free_name (length fs + 1) 1 target fs) [
            | none ↦ (fs, none)
            | some free ↦ copy_to content_hash rel free renamed fs
          ]))
      else copy_to content_hash rel target fresh fs
