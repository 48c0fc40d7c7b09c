-- ===== src/Scan/Pass/Safe.antt =====
-- A scan never forgets a file that still stands in the folder: enumerate_root, the loop of
-- _scan_one_root and _detect_deletions together.
use packrat.Prelude.{
  ℕ, ◌≡◌, refl, sym, ◌∙◌, inl, inr, Bool, true, false, ◌||◌, some, List, [], ◌∷◌, arith, All-imp,
  Has, if◌then◌else◌, Bool-cases,
}
use mathlib.Core.Path.{subst}
use packrat.Paths.{FilePath, sep, ends_sep}
use packrat.Scan.Walk.{Entries, IgnoreSet, Candidate, Enumeration, is_suppressed, enumerate_root}
use packrat.Scan.Walk.Covered.{Tracked}
use packrat.Scan.Walk.Ends.{enumerate_root_returns}
use packrat.Scan.Walk.Found.{Tracked-Covered}
use packrat.Scan.Known.{Known, key_of, get_known, load_existing_instances, plan_moves}
use packrat.Scan.Known.Moves.{plan_moves-IsMove}
use packrat.Scan.Pass.{nothing_sorted, contains, sort_candidates, gone_rows}
use packrat.Scan.Pass.Keeps.{load-OneKey, get_known-Has, ToAbsent, sort_all-Sees_row}

module _ (lower : ℕ → ℕ) where
  gone_rows-away :
      (seen : List ℕ) (en : Enumeration) (rows : List Known) (r : Known)
      → Has r (gone_rows lower seen en rows)
      → (contains r.fid seen ≡ false) × (is_suppressed lower en r.path ≡ false)
  unfolding gone_rows
  gone_rows-away seen en [] r m = absurd m
  gone_rows-away seen en (q ∷ rows) r m =
      elim (Bool-cases (contains q.fid seen || is_suppressed lower en q.path)) [
        | inl stays ↦ gone_rows-away seen en rows r (subst (λ l. Has r l) (stays_rows stays) m)
        | inr goes ↦ elim (subst (λ l. Has r l) (goes_rows goes) m) [
          | inl same ↦
              subst
                (λ (x : Known).
                  (contains x.fid seen ≡ false) × (is_suppressed lower en x.path ≡ false))
                (sym same) (ground arith, ground arith)
          | inr later ↦ gone_rows-away seen en rows r later
        ]
      ]
    where
      stays_rows :
          (contains q.fid seen || is_suppressed lower en q.path) ≡ true
          → gone_rows lower seen en (q ∷ rows) ≡ gone_rows lower seen en rows
      stays_rows stays = rw (gone_rows, stays) refl

      goes_rows :
          (contains q.fid seen || is_suppressed lower en q.path) ≡ false
          → gone_rows lower seen en (q ∷ rows) ≡ q ∷ gone_rows lower seen en rows
      goes_rows goes = rw (gone_rows, goes) refl

  ToAbsent-planned :
      (full : Bool) (tol : ℕ) (existing : List Known) (en : Enumeration)
      → ToAbsent lower full tol existing [] (if full then [] else plan_moves lower existing en tol)
  ToAbsent-planned true tol existing en = tt
  ToAbsent-planned false tol existing en =
      All-imp _ (λ m proven. proven.0.1) (plan_moves-IsMove lower existing en tol).0

  seen_row :
      (full : Bool) (tol : ℕ) (existing : List Known) (en : Enumeration) (c : Candidate) (r : Known)
      → Has c en.candidates
      → get_known lower (key_of lower c.path) existing ≡ some r
      → contains r.fid (sort_candidates lower full tol existing en).seen_fids ≡ true
  unfolding sort_candidates
  seen_row full tol existing en c r m e =
      sort_all-Sees_row lower full tol existing _ en.candidates c r nothing_sorted
        (ToAbsent-planned full tol existing en) m e

  -- The enumeration of a root ends, and a known row is not among the rows that the deletions of the
  -- same pass forget, not with nor without full, and whatever else the tree has, where the path of the
  -- row is in the tree of the root one of these: a file that is media by its name, that no rule for
  -- files ignores, and whose stat raises or shows it neither hidden nor of the system nor empty; or
  -- any path below an entry whose kind cannot be read or below a folder whose listing raises. The
  -- folders above the file may be pruned. The root does not end with a separator, the names of the
  -- folders above are such as a disk gives, and the change of case leaves the separator alone.
  pub scan-keeps :
      (ig : IgnoreSet) (keeps_sep : lower sep ≡ sep) (root : FilePath) (entries : Entries)
      (full : Bool) (tol : ℕ) (rows : List Known) (r : Known)
      → ends_sep root ≡ false
      → Tracked ig root [] entries r.path
      → Has r (load_existing_instances lower rows [])
      → (en : Enumeration) × (enumerate_root lower ig root (some entries) ≡ some en)
        × ¬ (
            Has r (
              gone_rows lower
                (sort_candidates lower full tol
                  (load_existing_instances lower rows [])
                  en).seen_fids
                en
                (load_existing_instances lower rows [])))
  scan-keeps ig keeps_sep root entries full tol rows r plain tracked m =
      let walked = enumerate_root_returns lower ig root (some entries) in
      (walked.0, walked.1, not_gone walked.0 walked.1)
    where
      existing : List Known
      existing = load_existing_instances lower rows []

      not_gone :
          (en : Enumeration)
          → enumerate_root lower ig root (some entries) ≡ some en
          → ¬ (
              Has r (
                gone_rows lower (sort_candidates lower full tol existing en).seen_fids en existing))
      not_gone en ends gone =
          let away = gone_rows-away _ en existing r gone in
          elim (Tracked-Covered lower keeps_sep ig root entries r.path en plain tracked ends) [
            | inl (c, among, same) ↦
                let found =
                  subst (λ p. get_known lower (key_of lower p) existing ≡ some r) (sym same)
                    (get_known-Has lower r existing (load-OneKey lower rows [] tt) m) in
                let seen = sym away.0 ∙ seen_row full tol existing en c r among found in cc
            | inr hidden ↦ let both = sym away.1 ∙ hidden in cc
          ]
