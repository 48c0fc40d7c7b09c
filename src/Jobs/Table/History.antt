-- ===== src/Jobs/Table/History.antt =====
-- What a change of the table may do to its rows: a row stays, keeps what was submitted, and never
-- goes back into the backlog.
use packrat.Prelude.{
  ℕ, ◌+◌, ◌≤◌, ◌≡◌, refl, ◌∙◌, Bool, true, none, List, [], ◌∷◌, ◌++◌, map, ◌&&◌, arith,
  if◌then◌else◌, inl, inr, Bool-cases, ◌==◌,
}
use packrat.Jobs.Row.{Job, is_queued, is_probe}
use packrat.Jobs.Table.{update_job, queued_probe, same_root}

pub record Kept (j i : Job) : Type 0 where
  pub id : i.id ≡ j.id
  pub type : i.type ≡ j.type
  pub root : i.root_id ≡ j.root_id
  pub params : i.params_json ≡ j.params_json
  pub enqueued : i.enqueued_at ≡ j.enqueued_at
  pub leaves : is_queued i.status ≡ true → is_queued j.status ≡ true

pub Kept-refl : (j : Job) → Kept j j
Kept-refl j = record {
  id = refl;
  type = refl;
  root = refl;
  params = refl;
  enqueued = refl;
  leaves = λ e. e;
}

Kept-trans : (i j k : Job) → Kept i j → Kept j k → Kept i k
Kept-trans i j k h g = record {
  id = g.id ∙ h.id;
  type = g.type ∙ h.type;
  root = g.root ∙ h.root;
  params = g.params ∙ h.params;
  enqueued = g.enqueued ∙ h.enqueued;
  leaves = λ e. h.leaves (g.leaves e);
}

-- Row by row, with no row added or lost.
abbrev pub Same : List Job → List Job → Type 0
Same [] [] = Unit
Same [] (i ∷ is) = ⊥
Same (j ∷ js) [] = ⊥
Same (j ∷ js) (i ∷ is) = Kept j i × Same js is

pub Same-refl : (js : List Job) → Same js js
Same-refl [] = tt
Same-refl (j ∷ js) = (Kept-refl j, Same-refl js)

pub Same-trans : (is js ks : List Job) → Same is js → Same js ks → Same is ks
Same-trans [] [] [] h g = tt
Same-trans [] [] (k ∷ ks) h g = absurd g
Same-trans [] (j ∷ js) ks h g = absurd h
Same-trans (i ∷ is) [] ks h g = absurd h
Same-trans (i ∷ is) (j ∷ js) [] h g = absurd g
Same-trans (i ∷ is) (j ∷ js) (k ∷ ks) h g = (Kept-trans i j k h.0 g.0, Same-trans is js ks h.1 g.1)

pub Same-update :
    (k : ℕ) (f : Job → Job) (js : List Job)
    → ((j : Job) → Kept j (f j))
    → Same js (update_job k f js)
unfolding update_job
Same-update k f [] keeps = tt
Same-update k f (j ∷ js) keeps = elim (Bool-cases (j.id == k)) [
  | inl same ↦ rw same (keeps j, Same-update k f js keeps)
  | inr other ↦ rw other (Kept-refl j, Same-update k f js keeps)
]

pub Same-map : (f : Job → Job) (js : List Job) → ((j : Job) → Kept j (f j)) → Same js (map f js)
Same-map f [] keeps = tt
Same-map f (j ∷ js) keeps = (keeps j, Same-map f js keeps)

-- The waiting probes of a root.
abbrev pub is_waiting_probe : ℕ → Job → Bool
is_waiting_probe root j = is_probe j.type && (is_queued j.status && same_root j.root_id root)

unfoldable pub count_probes : ℕ → List Job → ℕ
count_probes root [] = 0
count_probes root (j ∷ js) = (if is_waiting_probe root j then 1 else 0) + count_probes root js

waiting-Kept :
    (root : ℕ) (j i : Job)
    → Kept j i
    → is_waiting_probe root i ≡ true
    → is_waiting_probe root j ≡ true
waiting-Kept root j i h e = ground (arith, h.type, h.root, h.leaves)

pub count_probes-Same :
    (root : ℕ) (js is : List Job) → Same js is → count_probes root is ≤ count_probes root js
unfolding count_probes
count_probes-Same root [] [] h = omega arith
count_probes-Same root [] (i ∷ is) h = absurd h
count_probes-Same root (j ∷ js) [] h = absurd h
count_probes-Same root (j ∷ js) (i ∷ is) h =
    ground (arith, waiting-Kept root j i h.0, count_probes-Same root js is h.1)

pub count_probes-snoc :
    (root : ℕ) (js : List Job) (j : Job)
    → count_probes root (js ++ j ∷ [])
      ≡ count_probes root js + (if is_waiting_probe root j then 1 else 0)
unfolding count_probes
count_probes-snoc root [] j = ground arith
count_probes-snoc root (i ∷ js) j = ground (arith, count_probes-snoc root js j)

-- The query finds a waiting probe exactly when there is one.
pub queued_probe-none :
    (root : ℕ) (js : List Job) → queued_probe root js ≡ none → count_probes root js ≡ 0
unfolding queued_probe count_probes
queued_probe-none root [] e = refl
queued_probe-none root (j ∷ js) e = ground (arith, queued_probe-none root js)
