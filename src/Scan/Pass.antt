-- ===== src/Scan/Pass.antt =====
-- One pass over a root: the loop of _scan_one_root that sorts the candidates, and _detect_deletions,
-- src/packrat/jobs/scan.py.
pub mod Keeps
pub mod Safe
use packrat.Prelude.{
  ℕ, zero, suc, ◌+◌, ◌-◌, ◌*◌, ◌/◌, ◌%◌, ◌≤◌, ◌<◌, min, max, ◌≡◌, refl, sym, ap, ◌∙◌, ◌≢◌, ◌⊎◌, inl,
  inr, Bool, true, false, not, ◌&&◌, ◌||◌, Option, none, some, List, [], ◌∷◌, ◌++◌, map, arith,
  length, All, All-imp, All-snoc, All-append, All-at, Has, ltb, leb, ◌==◌, if◌then◌else◌,
  Bool-cases, Option-cases, ==_iff, ==_false, leb→le,
}
use packrat.Paths.{FilePath, same_path}
use packrat.Scan.Walk.{Candidate, Enumeration, is_suppressed}
use packrat.Scan.Known.{Known, is_fastpath_hit, key_of, get_known, plan_moves}
use packrat.Scan.Catalogue.{AssetRow, Catalogue, delete_instance, forget_if_orphaned}

pub record Sorted : Type 0 where
  pub seen_fids : List ℕ
  pub fastpath_fids : List ℕ
  pub moved : List (Candidate × Known)
  pub to_process : List Candidate
  pub skipped_fastpath : ℕ

unfoldable pub nothing_sorted : Sorted
nothing_sorted = record {
  seen_fids = [];
  fastpath_fids = [];
  moved = [];
  to_process = [];
  skipped_fastpath = 0;
}

unfoldable pub see : Option Known → Sorted → Sorted
see none s = s
see (some r) s = record s { seen_fids = r.fid ∷ s.seen_fids }

unfoldable pub skip_unchanged : Option Known → Sorted → Sorted
skip_unchanged none s = s
skip_unchanged (some r) s = record s {
  seen_fids = r.fid ∷ s.seen_fids;
  fastpath_fids = s.fastpath_fids ++ r.fid ∷ [];
  skipped_fastpath = s.skipped_fastpath + 1;
}

-- A candidate with the known row at its path and the move planned for its path.
unfoldable pub process_or_move : Candidate → Option Known → Option Known → Sorted → Sorted
process_or_move cand rec none s = see rec (record s { to_process = s.to_process ++ cand ∷ [] })
process_or_move cand rec (some origin) s =
    see (some origin) (record s { moved = s.moved ++ (cand, origin) ∷ [] })

unfoldable pub contains : ℕ → List ℕ → Bool
contains k [] = false
contains k (j ∷ rest) = (j == k) || contains k rest

unfoldable pub add_new : ℕ → List ℕ → List ℕ
add_new k ks = if contains k ks then ks else ks ++ k ∷ []

module _ (lower : ℕ → ℕ) where
  -- The dict of moves: a later entry stands in for an earlier one with the same key.
  unfoldable pub get_move : FilePath → List (Candidate × Known) → Option Known
  get_move k [] = none
  get_move k ((c, r) ∷ rest) = elim (get_move k rest) [
    | none ↦ if same_path (key_of lower c.path) k then some r else none
    | some s ↦ some s
  ]

  unfoldable pub sort_one :
      Bool → ℕ → List Known → List (Candidate × Known) → Candidate → Sorted → Sorted
  sort_one full tol existing moves cand s =
      let rec = get_known lower (key_of lower cand.path) existing in
      if not full && is_fastpath_hit tol rec cand
      then skip_unchanged rec s
      else process_or_move cand rec (get_move (key_of lower cand.path) moves) s

  unfoldable pub sort_all :
      Bool → ℕ → List Known → List (Candidate × Known) → List Candidate → Sorted → Sorted
  sort_all full tol existing moves [] s = s
  sort_all full tol existing moves (c ∷ cands) s =
      sort_all full tol existing moves cands (sort_one full tol existing moves c s)

  -- With full, no move is planned.
  unfoldable pub sort_candidates : Bool → ℕ → List Known → Enumeration → Sorted
  sort_candidates full tol existing en =
      sort_all full tol existing (if full then [] else plan_moves lower existing en tol)
        en.candidates nothing_sorted

  unfoldable pub gone_rows : List ℕ → Enumeration → List Known → List Known
  gone_rows seen en [] = []
  gone_rows seen en (r ∷ rows) =
      let rest = gone_rows seen en rows in
      if contains r.fid seen || is_suppressed lower en r.path then rest else r ∷ rest

unfoldable pub affected : List Known → List ℕ → List ℕ
affected [] ks = ks
affected (r ∷ rows) ks = affected rows (add_new r.asset_id ks)

unfoldable pub delete_all : List Known → Catalogue → Catalogue
delete_all [] cat = cat
delete_all (r ∷ rows) cat =
    delete_all rows (record cat { instances = delete_instance r.fid cat.instances })

unfoldable pub forget_all : List ℕ → Catalogue → Catalogue
forget_all [] cat = cat
forget_all (k ∷ ks) cat = forget_all ks (forget_if_orphaned k cat)

unfoldable pub count_active : List AssetRow → ℕ
count_active [] = 0
count_active (a ∷ rest) = if a.is_trashed then count_active rest else count_active rest + 1

-- The catalogue, with the numbers of deleted instances and of forgotten assets.
unfoldable pub detect_deletions :
    (ℕ → ℕ) → List Known → List ℕ → Enumeration → Catalogue → Catalogue × ℕ × ℕ
detect_deletions lower existing seen en cat =
    let gone = gone_rows lower seen en existing in
    let deleted = delete_all gone cat in
    let forgotten = forget_all (affected gone []) deleted in
    (forgotten, length gone, count_active deleted.assets - count_active forgotten.assets)

-- Phase 3 is left out when the root is offline.
unfoldable pub end_of_pass :
    (ℕ → ℕ) → List Known → List ℕ → Enumeration → Catalogue → Catalogue × ℕ × ℕ
end_of_pass lower existing seen en cat =
    if en.root_offline then (cat, 0, 0) else detect_deletions lower existing seen en cat
