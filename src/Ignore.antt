-- ===== src/Ignore.antt =====
-- The ignore rules, src/packrat/ignore.py: _translate, and the tests of IgnoreSet. A regular expression
-- is the list of the pieces that _translate writes, and matching it is membership in its language.
-- What re takes a character class to hold, the change of case of a character and the allowlist of
-- extensions are parameters; a class that re refuses is not modelled. A relative path is the list of
-- its segments, and `fuel` is the length of a pattern.
pub mod Samples
pub mod Sentinel
pub mod Shortcuts
use packrat.Prelude.{
  ℕ, zero, suc, ◌+◌, ◌-◌, ◌*◌, ◌/◌, ◌%◌, ◌≤◌, ◌<◌, min, max, ◌≡◌, refl, sym, ap, ◌∙◌, ◌≢◌, ◌⊎◌, inl,
  inr, Bool, true, false, not, ◌&&◌, ◌||◌, Option, none, some, List, [], ◌∷◌, ◌++◌, map, arith,
  length, All, All-imp, All-snoc, All-append, All-at, Has, ltb, leb, ◌==◌, if◌then◌else◌,
  Bool-cases, Option-cases, ==_iff, ==_false, leb→le,
}
use packrat.Paths.{FilePath, sep, same_path, ends_sep, has_sep}
use packrat.Scan.Walk.{IgnoreSet}

pub data Piece : Type 0 where
  lit : ℕ → Piece
  any_run : Piece
  any_all : Piece
  any_one : Piece
  opt_dirs : Piece
  char_class : FilePath → Piece

-- A compiled pattern, and whether it is for folders only.
abbrev pub Rule : Type 0
Rule = List Piece × Bool

-- "*", "?", "[", "]", "!", "^" and the newline.
abbrev pub star : ℕ
star = 42

abbrev pub question : ℕ
question = 63

abbrev pub open_bracket : ℕ
open_bracket = 91

abbrev pub close_bracket : ℕ
close_bracket = 93

abbrev pub bang : ℕ
bang = 33

abbrev pub caret : ℕ
caret = 94

abbrev pub newline : ℕ
newline = 10

unfoldable pub is_negation : ℕ → Bool
is_negation c = (c == bang) || (c == caret)

unfoldable pub prefixed : ℕ → Option (FilePath × FilePath) → Option (FilePath × FilePath)
prefixed c none = none
prefixed c (some (content, rest)) = some (c ∷ content, rest)

-- What stands before the closing bracket, and what after it.
unfoldable pub until_bracket : FilePath → Option (FilePath × FilePath)
until_bracket [] = none
until_bracket (c ∷ cs) =
    let rest = until_bracket cs in if c == close_bracket then some ([], cs) else prefixed c rest

-- A closing bracket that comes first is a member of the class.
unfoldable pub class_body : FilePath → Option (FilePath × FilePath)
class_body [] = none
class_body (c ∷ cs) =
    if c == close_bracket then prefixed c (until_bracket cs) else until_bracket (c ∷ cs)

unfoldable pub class_end : FilePath → Option (FilePath × FilePath)
class_end [] = none
class_end (c ∷ cs) = if is_negation c then prefixed c (class_body cs) else class_body (c ∷ cs)

unfoldable pub class_text : FilePath → FilePath
class_text [] = []
class_text (c ∷ cs) = if is_negation c then caret ∷ cs else c ∷ cs

unfoldable pub bracket_piece : FilePath → Option (FilePath × FilePath) → Piece × FilePath
bracket_piece cs none = (lit open_bracket, cs)
bracket_piece cs (some (content, rest)) = (char_class (class_text content), rest)

-- After two stars, with a slash that stands next.
unfoldable pub double_star : FilePath → Piece × FilePath
double_star [] = (any_all, [])
double_star (c ∷ cs) = if c == sep then (opt_dirs, cs) else (any_all, c ∷ cs)

unfoldable pub star_piece : FilePath → Piece × FilePath
star_piece [] = (any_run, [])
star_piece (c ∷ cs) = if c == star then double_star cs else (any_run, c ∷ cs)

unfoldable pub next_piece : ℕ → FilePath → Piece × FilePath
next_piece c cs =
    if c == star
    then star_piece cs
    else if c == question
    then (any_one, cs)
    else if c == open_bracket
    then bracket_piece cs (class_end cs)
    else (lit c, cs)

unfoldable pub pieces : ℕ → FilePath → List Piece
pieces zero core = []
pieces (suc fuel) [] = []
pieces (suc fuel) (c ∷ cs) = let next = next_piece c cs in next.0 ∷ pieces fuel next.1

unfoldable pub drop_last : FilePath → FilePath
drop_last [] = []
drop_last (c ∷ []) = []
drop_last (c ∷ d ∷ cs) = c ∷ drop_last (d ∷ cs)

-- The leading slash, if it is there, and the rest.
unfoldable pub split_anchor : FilePath → Bool × FilePath
split_anchor [] = (false, [])
split_anchor (c ∷ cs) = if c == sep then (true, cs) else (false, c ∷ cs)

unfoldable pub with_anchor : Bool → List Piece → List Piece
with_anchor anchored body = if anchored then body else opt_dirs ∷ body

unfoldable pub translate : (ℕ → ℕ) → FilePath → Rule
translate lower pattern =
    let dir_only = ends_sep pattern in
    let parts = split_anchor (if dir_only then drop_last pattern else pattern) in
    (
      with_anchor (parts.0 || has_sep parts.1) (pieces (length pattern) (map lower parts.1)),
      dir_only,
    )

-- A run of allowed characters, and then what follows.
unfoldable pub run_then : (ℕ → Bool) → (FilePath → Bool) → FilePath → Bool
run_then allowed follows [] = follows []
run_then allowed follows (c ∷ cs) =
    let later = run_then allowed follows cs in follows (c ∷ cs) || (allowed c && later)

unfoldable pub one_then : (ℕ → Bool) → (FilePath → Bool) → FilePath → Bool
one_then allowed follows [] = false
one_then allowed follows (c ∷ cs) = allowed c && follows cs

unfoldable pub not_slash : ℕ → Bool
not_slash c = not (c == sep)

unfoldable pub not_newline : ℕ → Bool
not_newline c = not (c == newline)

unfoldable pub is_slash : ℕ → Bool
is_slash c = c == sep

-- "thumbs.db", "desktop.ini" and ".ds_store".
abbrev pub junk_names : List FilePath
junk_names =
    (116 ∷ 104 ∷ 117 ∷ 109 ∷ 98 ∷ 115 ∷ 46 ∷ 100 ∷ 98 ∷ [])
    ∷ (100 ∷ 101 ∷ 115 ∷ 107 ∷ 116 ∷ 111 ∷ 112 ∷ 46 ∷ 105 ∷ 110 ∷ 105 ∷ [])
    ∷ (46 ∷ 100 ∷ 115 ∷ 95 ∷ 115 ∷ 116 ∷ 111 ∷ 114 ∷ 101 ∷ [])
    ∷ []

-- "_packrat_review".
abbrev pub review_dir : FilePath
review_dir = 95 ∷ 112 ∷ 97 ∷ 99 ∷ 107 ∷ 114 ∷ 97 ∷ 116 ∷ 95 ∷ 114 ∷ 101 ∷ 118 ∷ 105 ∷ 101 ∷ 119 ∷ []

-- "*.lnk", and the review folder with a slash.
abbrev pub builtin_globs : List FilePath
builtin_globs = (42 ∷ 46 ∷ 108 ∷ 110 ∷ 107 ∷ []) ∷ (review_dir ++ sep ∷ []) ∷ []

-- What re takes a class to hold, which extensions are listed, and what strip takes off.
pub record Settings : Type 0 where
  pub in_class : FilePath → ℕ → Bool
  pub has_media_ext : FilePath → Bool
  pub is_space : ℕ → Bool

unfoldable pub is_one_of : List FilePath → FilePath → Bool
is_one_of [] name = false
is_one_of (n ∷ ns) name = same_path n name || is_one_of ns name

module _ (lower : ℕ → ℕ) (set : Settings) where
  unfoldable pub matches : List Piece → FilePath → Bool
  matches [] [] = true
  matches [] (c ∷ cs) = false
  matches (lit d ∷ ps) s = one_then (λ c. c == d) (matches ps) s
  matches (any_run ∷ ps) s = run_then not_slash (matches ps) s
  matches (any_all ∷ ps) s = run_then not_newline (matches ps) s
  matches (any_one ∷ ps) s = one_then not_slash (matches ps) s
  matches (opt_dirs ∷ ps) s =
      matches ps s || run_then not_newline (one_then is_slash (matches ps)) s
  matches (char_class text ∷ ps) s = one_then (set.in_class text) (matches ps) s

  unfoldable pub joined : List FilePath → FilePath
  joined [] = []
  joined (s ∷ []) = s
  joined (s ∷ t ∷ rest) = s ++ sep ∷ joined (t ∷ rest)

  unfoldable pub name_of : List FilePath → FilePath
  name_of [] = []
  name_of (s ∷ []) = s
  name_of (s ∷ t ∷ rest) = name_of (t ∷ rest)

  -- The tests of a file.
  unfoldable pub matches_file : List Rule → FilePath → Bool
  matches_file [] rel = false
  matches_file ((ps, dir_only) ∷ rules) rel =
      let later = matches_file rules rel in (not dir_only && matches ps rel) || later

  unfoldable pub is_file_ignored : List Rule → List FilePath → Bool
  is_file_ignored rules rel =
      is_one_of junk_names (map lower (name_of rel)) || matches_file rules (map lower (joined rel))

  -- The tests of a folder, with the child "\x00" that stands for all that is below it.
  unfoldable pub matches_dir : List Rule → FilePath → Bool
  matches_dir [] rel = false
  matches_dir ((ps, dir_only) ∷ rules) rel =
      let later = matches_dir rules rel in
      matches ps rel || (not dir_only && matches ps (rel ++ sep ∷ 0 ∷ [])) || later

  unfoldable pub is_dir_pruned : List Rule → List FilePath → Bool
  is_dir_pruned rules rel =
      same_path (name_of rel) review_dir || matches_dir rules (map lower (joined rel))

  unfoldable pub is_blank : FilePath → Bool
  is_blank [] = true
  is_blank (c ∷ cs) = set.is_space c && is_blank cs

  unfoldable pub compile_all : List FilePath → List Rule
  compile_all [] = []
  compile_all (g ∷ globs) =
      let rules = compile_all globs in if is_blank g then rules else translate lower g ∷ rules

  unfoldable pub build : List FilePath → List Rule
  build extra_globs = compile_all (builtin_globs ++ extra_globs)

  -- The interface of the walk.
  unfoldable pub ignore_set : List Rule → IgnoreSet
  ignore_set rules = record {
    is_media = set.has_media_ext;
    is_file_ignored = is_file_ignored rules;
    is_dir_pruned = is_dir_pruned rules;
  }
