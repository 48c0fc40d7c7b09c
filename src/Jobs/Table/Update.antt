-- ===== src/Jobs/Table/Update.antt =====
-- How an update of one row shows in the table.
use mathlib.Core.Option
use packrat.Prelude.{
  ℕ, ◌≤◌, ◌≡◌, ◌≢◌, refl, none, some, List, [], ◌∷◌, ◌++◌, map, arith, All, All-imp, ◌==◌,
  if◌then◌else◌, inl, inr, Bool-cases, ==_iff, ==_false,
}
use packrat.Jobs.Row.{Job}
use packrat.Jobs.Table.{find_job, update_job, max_id}

-- A change of a row that keeps its primary key.
abbrev pub KeepsId : (Job → Job) → Type 0
KeepsId f = (j : Job) → (f j).id ≡ j.id

abbrev pub ids : List Job → List ℕ
ids = map (λ j. j.id)

-- A primary key: no two rows share one.
abbrev pub Distinct : List ℕ → Type 0
Distinct [] = Unit
Distinct (k ∷ ks) = All (λ i. k ≢ i) ks × Distinct ks

pub find_job-update :
    (i k : ℕ) (f : Job → Job) (js : List Job)
    → KeepsId f
    → find_job i (update_job k f js)
      ≡ (if i == k then Option.map f (find_job i js) else find_job i js)
unfolding find_job update_job
find_job-update i k f [] keeps = ground arith
find_job-update i k f (j ∷ js) keeps = ground (arith, keeps j, find_job-update i k f js keeps)

pub ids-update :
    (k : ℕ) (f : Job → Job) (js : List Job) → KeepsId f → ids (update_job k f js) ≡ ids js
unfolding update_job
ids-update k f [] keeps = refl
ids-update k f (j ∷ js) keeps = ground (arith, keeps j, ids-update k f js keeps)

module _ {ℓ} {P Q : Job → Type ℓ} where
  -- What holds of every row after an update: the updated row is looked at by itself.
  pub All-update :
      (k : ℕ) (f : Job → Job) (js : List Job)
      → ((j : Job) → j.id ≡ k → P j → Q (f j))
      → ((j : Job) → j.id ≢ k → P j → Q j)
      → All P js
      → All Q (update_job k f js)
  unfolding update_job
  All-update k f [] hit miss h = tt
  All-update k f (j ∷ js) hit miss h = elim (Bool-cases (j.id == k)) [
    | inl same ↦ rw same (hit j ((==_iff j.id k).0 same) h.0, All-update k f js hit miss h.1)
    | inr other ↦ rw other (miss j (==_false j.id k other) h.0, All-update k f js hit miss h.1)
  ]

pub max_id-bound : (js : List Job) → All (λ i. i ≤ max_id js) (ids js)
unfolding max_id
max_id-bound [] = tt
max_id-bound (j ∷ js) = (omega arith, All-imp (ids js) (λ i h. omega arith) (max_id-bound js))

pub find_job-snoc :
    (i : ℕ) (js : List Job) (j : Job)
    → find_job i (js ++ j ∷ [])
      ≡ (elim (find_job i js) [ some r ↦ some r | none ↦ if j.id == i then some j else none ])
unfolding find_job
find_job-snoc i [] j = refl
find_job-snoc i (r ∷ js) j = ground (arith, find_job-snoc i js j)
