-- ===== src/Jobs/Queue/Dispatch.antt =====
-- Which job `_pump` starts.
use packrat.Prelude.{
  ℕ, ◌≡◌, ◌≢◌, refl, sym, ◌∙◌, true, false, Option, none, some, List, [], ◌∷◌, arith, All, All-imp,
  Has, ◌⊎◌, inl, inr,
}
use mathlib.Core.Path.{subst}
use mathlib.Core.Bool.{false≢true}
use packrat.Jobs.Row.{Job, is_queued, ReviewRun, MergeRun}
use packrat.Jobs.Table.{comes_before, backlog}
use packrat.Jobs.Table.Order.{
  IsOrdered, backlog-IsOrdered, All-backlog, All-backlog_inv, before-asym, Has-backlog,
}
use packrat.Jobs.Queue.{
  Queue, runnable, verdict, fail_unknown, start, pump_rows, pump, finish, broadcast,
  close_subscribers,
}
use packrat.Jobs.Queue.Pumping.{Verdict-cases}

-- Row `j` can run, and no row that the order of the query puts before it can.
pub record IsNext (reviews : List ReviewRun) (merges : List MergeRun) (rows : List Job) (j : Job)
    : Type 0 where
  pub row : Has j rows
  pub waits : is_queued j.status ≡ true
  pub can_run : verdict reviews merges j ≡ runnable
  pub first :
      All
        (λ i.
          is_queued i.status ≡ true → comes_before i j ≡ true → verdict reviews merges i ≢ runnable)
        rows

-- What the slot holds after the rows were looked at: none of them can run, or the next one runs.
abbrev pub Picked : List ReviewRun → List MergeRun → List Job → Option ℕ → Type 0
Picked reviews merges rows none =
    All (λ i. is_queued i.status ≡ true → verdict reviews merges i ≢ runnable) rows
Picked reviews merges rows (some k) = (j : Job) × (j.id ≡ k) × IsNext reviews merges rows j

module _ (reviews : List ReviewRun) (merges : List MergeRun) where
  -- A row that cannot run is passed over.
  Picked-skip :
      (j : Job) (rows : List Job) (slot : Option ℕ)
      → verdict reviews merges j ≢ runnable
      → Picked reviews merges rows slot
      → Picked reviews merges (j ∷ rows) slot
  Picked-skip j rows none n h = ((λ _. n), h)
  Picked-skip j rows (some k) n (i, e, h) = (
    i,
    e,
    record { row = inr h.row; waits = h.waits; can_run = h.can_run; first = ((λ _ _. n), h.first) },
  )

  -- The rows of the backlog are the queued ones of the table.
  Picked-backlog :
      (jobs : List Job) (slot : Option ℕ)
      → Picked reviews merges (backlog jobs) slot
      → Picked reviews merges jobs slot
  Picked-backlog jobs none h = All-imp jobs (λ i p on. p on on) (All-backlog_inv _ jobs h)
  Picked-backlog jobs (some k) (j, e, h) = (
    j,
    e,
    record {
      row = Has-backlog j jobs h.row;
      waits = h.waits;
      can_run = h.can_run;
      first = All-imp jobs (λ i p on. p on on) (All-backlog_inv _ jobs h.first);
    },
  )

before_irrefl : (j : Job) → comes_before j j ≡ true → ⊥
before_irrefl j h = cc (before-asym j j h)

pump_rows-Picked :
    (now : ℕ) (rows : List Job) (q : Queue)
    → IsOrdered rows
    → All (λ j. is_queued j.status ≡ true) rows
    → q.running_job_id ≡ none
    → Picked q.reviews q.merges rows (pump_rows now rows q).running_job_id
unfolding pump_rows start fail_unknown finish broadcast close_subscribers
pump_rows-Picked now [] q o w free = subst (Picked q.reviews q.merges []) (sym free) tt
pump_rows-Picked now (j ∷ rows) q o w free = elim (Verdict-cases (verdict q.reviews q.merges j)) [
  | inl e ↦
      rw (e, pump_rows)
        (Picked-skip q.reviews q.merges j rows _ (λ r. cc (e, r))
          (pump_rows-Picked now rows (fail_unknown now j q) o.1 w.1 free))
  | inr (inl e) ↦
      rw (e, pump_rows)
        (
          j,
          refl,
          record {
            row = inl refl;
            waits = w.0;
            can_run = e;
            first = (
              (λ _ b. absurd (before_irrefl j b)),
              All-imp rows (λ i n _ b. absurd (false≢true (sym n ∙ b))) o.0,
            );
          },
        )
  | inr (inr e) ↦
      rw (e, pump_rows)
        (Picked-skip q.reviews q.merges j rows _ (λ r. cc (e, r))
          (pump_rows-Picked now rows q o.1 w.1 free))
]

-- With the slot free and no shutdown under way, a pump starts the queued job that comes first in
-- the order of the query among those whose root is free, and leaves the slot empty exactly when no
-- queued job can run.
pub pump-first_runnable :
    (now : ℕ) (q : Queue)
    → q.running_job_id ≡ none
    → q.stopping ≡ false
    → Picked q.reviews q.merges q.jobs (pump now q).running_job_id
unfolding pump
pump-first_runnable now q free off =
    simp (off, free)
      (Picked-backlog q.reviews q.merges q.jobs _ (
        pump_rows-Picked now (backlog q.jobs) q (backlog-IsOrdered q.jobs)
          (All-backlog _ q.jobs (All-always q.jobs)) free))
  where
    All-always :
        (js : List Job) → All (λ j. is_queued j.status ≡ true → is_queued j.status ≡ true) js
    All-always [] = tt
    All-always (j ∷ js) = ((λ e. e), All-always js)

-- While the daemon stops, or while a job holds the slot, a pump changes nothing.
pub pump-busy :
    (now k : ℕ) (q : Queue) → (q.stopping ≡ true) ⊎ (q.running_job_id ≡ some k) → pump now q ≡ q
unfolding pump
pump-busy now k q h = ground arith
