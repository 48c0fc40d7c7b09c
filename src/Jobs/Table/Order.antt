-- ===== src/Jobs/Table/Order.antt =====
-- The backlog is the queued rows, in the order of the query.
use packrat.Prelude.{
  ◌≡◌, true, false, List, [], ◌∷◌, arith, All, All-imp, Has, ◌⊎◌, inl, inr, Bool-cases,
}
use packrat.Jobs.Row.{Job, is_queued}
use packrat.Jobs.Table.{comes_before, insert_ordered, backlog}

-- `comes_before` is a strict weak order.
pub before-asym : (a b : Job) → comes_before a b ≡ true → comes_before b a ≡ false
unfolding comes_before
before-asym a b h = ground arith

pub not_before_trans :
    (a b c : Job) → comes_before b a ≡ false → comes_before c b ≡ false → comes_before c a ≡ false
unfolding comes_before
not_before_trans a b c h k = ground arith

-- No later row comes strictly before an earlier one.
abbrev pub IsOrdered : List Job → Type 0
IsOrdered [] = Unit
IsOrdered (j ∷ js) = All (λ i. comes_before i j ≡ false) js × IsOrdered js

module _ {ℓ} (P : Job → Type ℓ) where
  pub All-insert : (j : Job) (ks : List Job) → P j → All P ks → All P (insert_ordered j ks)
  unfolding insert_ordered
  All-insert j [] p h = (p, tt)
  All-insert j (k ∷ ks) p h = elim (Bool-cases (comes_before k j)) [
    | inl yes_before ↦ rw yes_before (h.0, All-insert j ks p h.1)
    | inr not_before ↦ rw not_before (p, h)
  ]

  pub All-insert_inv : (j : Job) (ks : List Job) → All P (insert_ordered j ks) → P j × All P ks
  unfolding insert_ordered
  All-insert_inv j [] = λ h. (h.0, tt)
  All-insert_inv j (k ∷ ks) = elim (Bool-cases (comes_before k j)) [
    | inl yes_before ↦
        rw yes_before (λ h. let (p, rest) = All-insert_inv j ks h.1 in (p, (h.0, rest)))
    | inr not_before ↦ rw not_before (λ h. h)
  ]

  -- What holds of every queued row holds of the backlog, and the other way round.
  pub All-backlog :
      (js : List Job) → All (λ j. is_queued j.status ≡ true → P j) js → All P (backlog js)
  unfolding backlog
  All-backlog [] h = tt
  All-backlog (j ∷ js) h = elim (Bool-cases (is_queued j.status)) [
    | inl on ↦ rw on (All-insert j (backlog js) (h.0 on) (All-backlog js h.1))
    | inr off ↦ rw off (All-backlog js h.1)
  ]

  pub All-backlog_inv :
      (js : List Job) → All P (backlog js) → All (λ j. is_queued j.status ≡ true → P j) js
  unfolding backlog
  All-backlog_inv [] = λ h. tt
  All-backlog_inv (j ∷ js) = elim (Bool-cases (is_queued j.status)) [
    | inl on ↦ rw on (λ h.
        let (p, rest) = All-insert_inv j (backlog js) h in ((λ _. p), All-backlog_inv js rest))
    | inr off ↦ rw off (λ h. ((λ on. cc), All-backlog_inv js h))
  ]

pub insert-IsOrdered : (j : Job) (ks : List Job) → IsOrdered ks → IsOrdered (insert_ordered j ks)
unfolding insert_ordered
insert-IsOrdered j [] h = (tt, tt)
insert-IsOrdered j (k ∷ ks) h = elim (Bool-cases (comes_before k j)) [
  | inl yes_before ↦ rw yes_before (
    All-insert (λ i. comes_before i k ≡ false) j ks (before-asym k j yes_before) h.0,
    insert-IsOrdered j ks h.1,
  )
  | inr not_before ↦
      rw not_before
        ((not_before, All-imp ks (λ i later. not_before_trans j k i not_before later) h.0), h)
]

-- Whatever the table, the backlog stands in the order of the query: higher priority first, then
-- the earlier submission, then the smaller id.
pub backlog-IsOrdered : (js : List Job) → IsOrdered (backlog js)
unfolding backlog
backlog-IsOrdered [] = tt
backlog-IsOrdered (j ∷ js) = elim (Bool-cases (is_queued j.status)) [
  | inl on ↦ rw on (insert-IsOrdered j (backlog js) (backlog-IsOrdered js))
  | inr off ↦ rw off (backlog-IsOrdered js)
]

Has-insert : (i j : Job) (ks : List Job) → Has i (insert_ordered j ks) → (i ≡ j) ⊎ Has i ks
unfolding insert_ordered
Has-insert i j [] = λ m. m
Has-insert i j (k ∷ ks) = elim (Bool-cases (comes_before k j)) [
  | inl yes_before ↦ rw yes_before (λ m.
      let r : (i ≡ j) ⊎ ((i ≡ k) ⊎ Has i ks) = elim m [
        | inl e ↦ inr (inl e)
        | inr t ↦ elim (Has-insert i j ks t) [ inl e ↦ inl e | inr u ↦ inr (inr u) ]
      ] in
      r)
  | inr not_before ↦ rw not_before (λ m. m)
]

-- A row of the backlog is a row of the table.
pub Has-backlog : (i : Job) (js : List Job) → Has i (backlog js) → Has i js
unfolding backlog
Has-backlog i [] = λ m. m
Has-backlog i (j ∷ js) = elim (Bool-cases (is_queued j.status)) [
  | inl on ↦ rw on (λ m.
      let r : (i ≡ j) ⊎ Has i js = elim (Has-insert i j (backlog js) m) [
        | inl e ↦ inl e
        | inr t ↦ inr (Has-backlog i js t)
      ] in
      r)
  | inr off ↦ rw off (λ m. inr (Has-backlog i js m))
]
