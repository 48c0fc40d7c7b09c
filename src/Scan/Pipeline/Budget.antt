-- ===== src/Scan/Pipeline/Budget.antt =====
-- The pipeline keeps each candidate and its memory within bounds.
use packrat.Prelude.{
  ℕ, zero, suc, ◌+◌, ◌*◌, ◌≤◌, max, ◌≡◌, refl, ap, ◌∙◌, true, List, [], ◌∷◌, ◌++◌, arith, length,
  All, All-append,
}
use mathlib.Core.Path.{subst}
use packrat.Scan.Pipeline.{
  Producer, ready, reading, admitting, putting, ended, Consumer, waiting, expired, working, exited,
  Pipeline, admits, repeat, started, Step, Reach,
}

abbrev total : {A : Type 0} → (A → ℕ) → List A → ℕ
total f [] = 0
total f (a ∷ rest) = f a + total f rest

total-append :
    {A : Type 0} (f : A → ℕ) (xs ys : List A) → total f (xs ++ ys) ≡ total f xs + total f ys
total-append f [] ys = omega arith
total-append f (x ∷ xs) ys = omega (arith, total-append f xs ys)

abbrev one_of : {A : Type 0} → A → ℕ
one_of a = 1

-- The candidates and the bytes that a thread holds.
abbrev held_by : Producer → ℕ
held_by ready = 0
held_by (reading c) = 1
held_by (admitting c n) = 1
held_by (putting c n) = 1
held_by ended = 0

abbrev bytes_of : Producer → ℕ
bytes_of ready = 0
bytes_of (reading c) = 0
bytes_of (admitting c n) = 0
bytes_of (putting c n) = n
bytes_of ended = 0

abbrev worked_by : Consumer → ℕ
worked_by waiting = 0
worked_by expired = 0
worked_by (working c n) = 1
worked_by exited = 0

abbrev buffer_of : Consumer → ℕ
buffer_of waiting = 0
buffer_of expired = 0
buffer_of (working c n) = n
buffer_of exited = 0

abbrev snd_of : ℕ × ℕ → ℕ
snd_of item = item.1

-- What a producer holds that was read fits the cap.
abbrev Fits : ℕ → Producer → Type 0
Fits cap ready = Unit
Fits cap (reading c) = Unit
Fits cap (admitting c n) = n ≤ cap
Fits cap (putting c n) = n ≤ cap
Fits cap ended = Unit

-- The candidates that are not recorded yet, wherever they are, and those that are.
abbrev pub everywhere : Pipeline → ℕ
everywhere s =
    total one_of s.remaining
    + total held_by s.producers
    + total one_of s.read_q
    + total worked_by s.consumers
    + total one_of s.result_q
    + total one_of s.recorded

abbrev pub buffered : Pipeline → ℕ
buffered s = total bytes_of s.producers + total snd_of s.read_q + total buffer_of s.consumers

-- The bytes that producers have read and for which they wait to be admitted.
abbrev waiting_of : Producer → ℕ
waiting_of ready = 0
waiting_of (reading c) = 0
waiting_of (admitting c n) = n
waiting_of (putting c n) = 0
waiting_of ended = 0

abbrev pub unadmitted : Pipeline → ℕ
unadmitted s = total waiting_of s.producers

record Within (budget cap n : ℕ) (s : Pipeline) : Type 0 where
  kept : everywhere s ≡ n
  counted : s.inflight ≡ buffered s
  bounded : s.inflight ≤ max budget cap
  fitting : All (Fits cap) s.producers

All-split : {A : Type 0} (P : A → Type 0) (xs ys : List A) → All P (xs ++ ys) → All P xs × All P ys
All-split P [] ys h = (tt, h)
All-split P (x ∷ xs) ys h = let rest = All-split P xs ys h.1 in ((h.0, rest.0), rest.1)

module _ (budget cap n : ℕ) where
  -- One producer goes from one state to another.
  Fits-after :
      (before after : List Producer) (p q : Producer)
      → Fits cap q
      → All (Fits cap) (before ++ p ∷ after)
      → All (Fits cap) (before ++ q ∷ after)
  Fits-after before after p q fits all =
      let parts = All-split (Fits cap) before (p ∷ after) all in
      All-append (Fits cap) before (q ∷ after) parts.0 (fits, parts.1.1)

  at_place :
      {A : Type 0} (f : A → ℕ) (xs before after : List A) (p : A)
      → xs ≡ before ++ p ∷ after
      → total f xs ≡ total f before + (f p + total f after)
  at_place f xs before after p e = ap (total f) e ∙ total-append f before (p ∷ after)

  fit_at :
      (before after : List Producer) (c m : ℕ)
      → All (Fits cap) (before ++ admitting c m ∷ after)
      → m ≤ cap
  fit_at before after c m all = (All-split (Fits cap) before (admitting c m ∷ after) all).1.0

  admitted_bound :
      (used m : ℕ)
      → admits budget used m ≡ true
      → m ≤ cap
      → used ≤ max budget cap
      → used + m ≤ max budget cap
  unfolding admits
  admitted_bound used m admitted small bounded = ground arith

  Step-Within :
      (s t : Pipeline) → Step budget cap s t → Within budget cap n s → Within budget cap n t
  Step-Within s t (Step.take before after c rest at e) h = record {
    kept = omega (
      arith,
      h.kept,
      at_place held_by s.producers before after (ready) at,
      total-append held_by before ((reading c) ∷ after),
      ap (total one_of) e,
    );
    counted = omega (
      arith,
      h.counted,
      at_place bytes_of s.producers before after (ready) at,
      total-append bytes_of before ((reading c) ∷ after),
    );
    bounded = h.bounded;
    fitting = Fits-after before after (ready) (reading c) tt (subst (All (Fits cap)) at h.fitting);
  }
  Step-Within s t (Step.finish before after at e) h = record {
    kept = omega (
      arith,
      h.kept,
      at_place held_by s.producers before after (ready) at,
      total-append held_by before ((ended) ∷ after),
    );
    counted = omega (
      arith,
      h.counted,
      at_place bytes_of s.producers before after (ready) at,
      total-append bytes_of before ((ended) ∷ after),
    );
    bounded = h.bounded;
    fitting = Fits-after before after (ready) (ended) tt (subst (All (Fits cap)) at h.fitting);
  }
  Step-Within s t (Step.read before after c m at small) h = record {
    kept = omega (
      arith,
      h.kept,
      at_place held_by s.producers before after (reading c) at,
      total-append held_by before ((admitting c m) ∷ after),
    );
    counted = omega (
      arith,
      h.counted,
      at_place bytes_of s.producers before after (reading c) at,
      total-append bytes_of before ((admitting c m) ∷ after),
    );
    bounded = h.bounded;
    fitting =
        Fits-after before after (reading c) (admitting c m) small
          (subst (All (Fits cap)) at h.fitting);
  }
  Step-Within s t (Step.read_error before after c at) h = record {
    kept = omega (
      arith,
      h.kept,
      at_place held_by s.producers before after (reading c) at,
      total-append held_by before ((ready) ∷ after),
      total-append one_of s.result_q (c ∷ []),
    );
    counted = omega (
      arith,
      h.counted,
      at_place bytes_of s.producers before after (reading c) at,
      total-append bytes_of before ((ready) ∷ after),
    );
    bounded = h.bounded;
    fitting = Fits-after before after (reading c) (ready) tt (subst (All (Fits cap)) at h.fitting);
  }
  Step-Within s t (Step.acquire before after c m at admitted) h = record {
    kept = omega (
      arith,
      h.kept,
      at_place held_by s.producers before after (admitting c m) at,
      total-append held_by before ((putting c m) ∷ after),
    );
    counted = omega (
      arith,
      h.counted,
      at_place bytes_of s.producers before after (admitting c m) at,
      total-append bytes_of before ((putting c m) ∷ after),
    );
    bounded =
        admitted_bound s.inflight m admitted
          (fit_at before after c m (subst (All (Fits cap)) at h.fitting)) h.bounded;
    fitting =
        Fits-after before after (admitting c m) (putting c m)
          (fit_at before after c m (subst (All (Fits cap)) at h.fitting))
          (subst (All (Fits cap)) at h.fitting);
  }
  Step-Within s t (Step.put before after c m at) h = record {
    kept = omega (
      arith,
      h.kept,
      at_place held_by s.producers before after (putting c m) at,
      total-append held_by before ((ready) ∷ after),
      total-append one_of s.read_q ((c, m) ∷ []),
    );
    counted = omega (
      arith,
      h.counted,
      at_place bytes_of s.producers before after (putting c m) at,
      total-append bytes_of before ((ready) ∷ after),
      total-append snd_of s.read_q ((c, m) ∷ []),
    );
    bounded = h.bounded;
    fitting =
        Fits-after before after (putting c m) (ready) tt (subst (All (Fits cap)) at h.fitting);
  }
  Step-Within s t (Step.get before after c m rest at e) h = record {
    kept = omega (
      arith,
      h.kept,
      at_place worked_by s.consumers before after (waiting) at,
      total-append worked_by before ((working c m) ∷ after),
      ap (total one_of) e,
    );
    counted = omega (
      arith,
      h.counted,
      at_place buffer_of s.consumers before after (waiting) at,
      total-append buffer_of before ((working c m) ∷ after),
      ap (total snd_of) e,
    );
    bounded = h.bounded;
    fitting = h.fitting;
  }
  Step-Within s t (Step.expire before after at e) h = record {
    kept = omega (
      arith,
      h.kept,
      at_place worked_by s.consumers before after (waiting) at,
      total-append worked_by before ((expired) ∷ after),
    );
    counted = omega (
      arith,
      h.counted,
      at_place buffer_of s.consumers before after (waiting) at,
      total-append buffer_of before ((expired) ∷ after),
    );
    bounded = h.bounded;
    fitting = h.fitting;
  }
  Step-Within s t (Step.poll_again before after at live) h = record {
    kept = omega (
      arith,
      h.kept,
      at_place worked_by s.consumers before after (expired) at,
      total-append worked_by before ((waiting) ∷ after),
    );
    counted = omega (
      arith,
      h.counted,
      at_place buffer_of s.consumers before after (expired) at,
      total-append buffer_of before ((waiting) ∷ after),
    );
    bounded = h.bounded;
    fitting = h.fitting;
  }
  Step-Within s t (Step.leave before after at over) h = record {
    kept = omega (
      arith,
      h.kept,
      at_place worked_by s.consumers before after (expired) at,
      total-append worked_by before ((exited) ∷ after),
    );
    counted = omega (
      arith,
      h.counted,
      at_place buffer_of s.consumers before after (expired) at,
      total-append buffer_of before ((exited) ∷ after),
    );
    bounded = h.bounded;
    fitting = h.fitting;
  }
  Step-Within s t (Step.work before after c m at) h = record {
    kept = omega (
      arith,
      h.kept,
      at_place worked_by s.consumers before after (working c m) at,
      total-append worked_by before ((waiting) ∷ after),
      total-append one_of s.result_q (c ∷ []),
    );
    counted = omega (
      arith,
      h.counted,
      at_place buffer_of s.consumers before after (working c m) at,
      total-append buffer_of before ((waiting) ∷ after),
    );
    bounded = omega (arith, h.bounded);
    fitting = h.fitting;
  }
  Step-Within s t (Step.record_result c rest e) h = record {
    kept = omega (arith, h.kept, ap (total one_of) e, total-append one_of s.recorded (c ∷ []));
    counted = h.counted;
    bounded = h.bounded;
    fitting = h.fitting;
  }

  crew_swap :
      (before after : List Producer) (xs : List Producer) (p q : Producer)
      → xs ≡ before ++ p ∷ after
      → total one_of (before ++ q ∷ after) ≡ total one_of xs
  crew_swap before after xs p q at =
      omega (arith, at_place one_of xs before after p at, total-append one_of before (q ∷ after))

  -- No thread is started later.
  Step-crew :
      (s t : Pipeline) → Step budget cap s t → total one_of t.producers ≡ total one_of s.producers
  Step-crew s t (Step.take before after c rest at e) = crew_swap before after s.producers _ _ at
  Step-crew s t (Step.finish before after at e) = crew_swap before after s.producers _ _ at
  Step-crew s t (Step.read before after c m at small) = crew_swap before after s.producers _ _ at
  Step-crew s t (Step.read_error before after c at) = crew_swap before after s.producers _ _ at
  Step-crew s t (Step.acquire before after c m at ok) = crew_swap before after s.producers _ _ at
  Step-crew s t (Step.put before after c m at) = crew_swap before after s.producers _ _ at
  Step-crew s t (Step.get before after c m rest at e) = refl
  Step-crew s t (Step.expire before after at e) = refl
  Step-crew s t (Step.poll_again before after at live) = refl
  Step-crew s t (Step.leave before after at over) = refl
  Step-crew s t (Step.work before after c m at) = refl
  Step-crew s t (Step.record_result c rest e) = refl

  Reach-crew :
      (s t : Pipeline) → Reach budget cap s t → total one_of t.producers ≡ total one_of s.producers
  Reach-crew s t Reach.here = refl
  Reach-crew s u (Reach.and_then t v r step) = Step-crew t u step ∙ Reach-crew s t r

  one_bound : (p : Producer) → Fits cap p → waiting_of p ≤ cap
  one_bound ready fit = omega arith
  one_bound (reading c) fit = omega arith
  one_bound (admitting c m) fit = fit
  one_bound (putting c m) fit = omega arith
  one_bound ended fit = omega arith

  suc_times : (k : ℕ) → (1 + k) * cap ≡ cap + k * cap
  suc_times k = omega arith

  waiting_bound :
      (ps : List Producer) → All (Fits cap) ps → total waiting_of ps ≤ total one_of ps * cap
  waiting_bound [] fits = omega arith
  waiting_bound (p ∷ ps) (fit, fits) =
      omega (arith, one_bound p fit, waiting_bound ps fits, suc_times (total one_of ps))

  Reach-Within :
      (s t : Pipeline) → Reach budget cap s t → Within budget cap n s → Within budget cap n t
  Reach-Within s t Reach.here h = h
  Reach-Within s u (Reach.and_then t v r step) h = Step-Within t u step (Reach-Within s t r h)

total-repeat : {A : Type 0} (f : A → ℕ) (n : ℕ) (a : A) → f a ≡ 0 → total f (repeat n a) ≡ 0
unfolding repeat
total-repeat f zero a e = refl
total-repeat f (suc n) a e = omega (arith, e, total-repeat f n a e)

Fits-repeat : (cap n : ℕ) → All (Fits cap) (repeat n ready)
unfolding repeat
Fits-repeat cap zero = tt
Fits-repeat cap (suc n) = (tt, Fits-repeat cap n)

started-Within :
    (budget cap n_io n_cpu : ℕ) (cands : List ℕ)
    → Within budget cap (total one_of cands) (started n_io n_cpu cands)
unfolding started
started-Within budget cap n_io n_cpu cands = record {
  kept =
      omega
        (arith, total-repeat held_by n_io ready refl, total-repeat worked_by n_cpu waiting refl);
  counted =
      omega
        (arith, total-repeat bytes_of n_io ready refl, total-repeat buffer_of n_cpu waiting refl);
  bounded = omega arith;
  fitting = Fits-repeat cap n_io;
}

started_crew :
    (n_io n_cpu : ℕ) (cands : List ℕ) → total one_of (started n_io n_cpu cands).producers ≡ n_io
unfolding started repeat
started_crew n_io n_cpu cands = count n_io
  where
    count : (n : ℕ) → total one_of (repeat n ready) ≡ n
    count zero = refl
    count (suc n) = omega (arith, count n)

-- In every state that the pipeline reaches, by any interleaving of its threads, no candidate is lost
-- or doubled in number: those not yet taken, read, queued, worked on, waiting as results and recorded
-- are together as many as there were. The bytes counted as in flight are exactly those of the buffers
-- that were admitted and are not yet consumed, and they stay within the budget or, where that is
-- larger, the size of the largest photo. The bytes that are read and still wait to be admitted are not
-- counted; they are at most one largest photo for each producer, so that all bytes held stay within
-- the sum of the two bounds.
pub pipeline_bounds :
    (budget cap n_io n_cpu : ℕ) (cands : List ℕ) (s : Pipeline)
    → Reach budget cap (started n_io n_cpu cands) s
    → (everywhere s ≡ length cands)
      × (s.inflight ≡ buffered s)
      × (s.inflight ≤ max budget cap)
      × (buffered s + unadmitted s ≤ max budget cap + n_io * cap)
pipeline_bounds budget cap n_io n_cpu cands s r =
    let h =
      Reach-Within budget cap (total one_of cands) (started n_io n_cpu cands) s r
        (started-Within budget cap n_io n_cpu cands) in
    let crew =
      Reach-crew budget cap 0 (started n_io n_cpu cands) s r ∙ started_crew n_io n_cpu cands in
    let waits =
      subst (λ k. unadmitted s ≤ k * cap) crew (waiting_bound budget cap 0 s.producers h.fitting) in
    (h.kept ∙ ones cands, h.counted, h.bounded, omega (arith, h.counted, h.bounded, waits))
  where
    ones : (xs : List ℕ) → total one_of xs ≡ length xs
    ones [] = refl
    ones (x ∷ xs) = omega (arith, ones xs)
