-- ===== src/Scan/Pipeline.antt =====
-- The photo pipeline, _run_photo_pipeline of src/packrat/jobs/scan.py, while nothing cancels it: the
-- threads as states, and a step for each action between two points where another thread may run. A
-- candidate is a number, and a buffer is a candidate with its number of bytes. What a read answers
-- is free, but no photo is larger than `cap`, as _scan_one_root sorts them.
pub mod Budget
pub mod Stuck
use packrat.Prelude.{
  ℕ, zero, suc, ◌+◌, ◌-◌, ◌*◌, ◌/◌, ◌%◌, ◌≤◌, ◌<◌, min, max, ◌≡◌, refl, sym, ap, ◌∙◌, ◌≢◌, ◌⊎◌, inl,
  inr, Bool, true, false, not, ◌&&◌, ◌||◌, Option, none, some, List, [], ◌∷◌, ◌++◌, map, arith,
  length, All, All-imp, All-snoc, All-append, All-at, Has, ltb, leb, ◌==◌, if◌then◌else◌,
  Bool-cases, Option-cases, ==_iff, ==_false, leb→le,
}

pub data Producer : Type 0 where
  ready : Producer
  reading : ℕ → Producer
  admitting : ℕ → ℕ → Producer
  putting : ℕ → ℕ → Producer
  ended : Producer

-- `expired` is a consumer whose wait for an item has timed out, before it asks for live producers.
pub data Consumer : Type 0 where
  waiting : Consumer
  expired : Consumer
  working : ℕ → ℕ → Consumer
  exited : Consumer

pub record Pipeline : Type 0 where
  pub remaining : List ℕ
  pub producers : List Producer
  pub read_q : List (ℕ × ℕ)
  pub consumers : List Consumer
  pub inflight : ℕ
  pub result_q : List ℕ
  pub recorded : List ℕ

unfoldable pub is_live : Producer → Bool
is_live ended = false
is_live ready = true
is_live (reading c) = true
is_live (admitting c n) = true
is_live (putting c n) = true

unfoldable pub feeding : List Producer → Bool
feeding [] = false
feeding (p ∷ rest) = is_live p || feeding rest

-- _acquire admits a buffer that fits, or one that is alone.
unfoldable pub admits : ℕ → ℕ → ℕ → Bool
admits budget inflight n = (inflight == 0) || leb (inflight + n) budget

unfoldable pub repeat : {A : Type 0} → ℕ → A → List A
repeat zero a = []
repeat (suc n) a = a ∷ repeat n a

unfoldable pub started : ℕ → ℕ → List ℕ → Pipeline
started n_io n_cpu cands = record {
  remaining = cands;
  producers = repeat n_io ready;
  read_q = [];
  consumers = repeat n_cpu waiting;
  inflight = 0;
  result_q = [];
  recorded = [];
}

abbrev pub Producing : Pipeline → List Producer → Producer → List Producer → Type 0
Producing s before p after = s.producers ≡ before ++ p ∷ after

abbrev pub Consuming : Pipeline → List Consumer → Consumer → List Consumer → Type 0
Consuming s before c after = s.consumers ≡ before ++ c ∷ after

module _ (budget cap : ℕ) where
  -- The next state, where one thread of the lists does its next action.
  pub data Step (s : Pipeline) : Pipeline → Type 0 where
    take :
        (before after : List Producer) (c : ℕ) (rest : List ℕ)
        → Producing s before ready after
        → s.remaining ≡ c ∷ rest
        → Step s (record s { remaining = rest; producers = before ++ reading c ∷ after })
    finish :
        (before after : List Producer)
        → Producing s before ready after
        → s.remaining ≡ []
        → Step s (record s { producers = before ++ ended ∷ after })
    read :
        (before after : List Producer) (c n : ℕ)
        → Producing s before (reading c) after
        → n ≤ cap
        → Step s (record s { producers = before ++ admitting c n ∷ after })
    read_error :
        (before after : List Producer) (c : ℕ)
        → Producing s before (reading c) after
        → Step s (record s { producers = before ++ ready ∷ after; result_q = s.result_q ++ c ∷ [] })
    acquire :
        (before after : List Producer) (c n : ℕ)
        → Producing s before (admitting c n) after
        → admits budget s.inflight n ≡ true
        → Step s (record s { producers = before ++ putting c n ∷ after; inflight = s.inflight + n })
    put :
        (before after : List Producer) (c n : ℕ)
        → Producing s before (putting c n) after
        → Step s
            (record s { producers = before ++ ready ∷ after; read_q = s.read_q ++ (c, n) ∷ [] })
    get :
        (before after : List Consumer) (c n : ℕ) (rest : List (ℕ × ℕ))
        → Consuming s before waiting after
        → s.read_q ≡ (c, n) ∷ rest
        → Step s (record s { read_q = rest; consumers = before ++ working c n ∷ after })
    expire :
        (before after : List Consumer)
        → Consuming s before waiting after
        → s.read_q ≡ []
        → Step s (record s { consumers = before ++ expired ∷ after })
    poll_again :
        (before after : List Consumer)
        → Consuming s before expired after
        → feeding s.producers ≡ true
        → Step s (record s { consumers = before ++ waiting ∷ after })
    leave :
        (before after : List Consumer)
        → Consuming s before expired after
        → feeding s.producers ≡ false
        → Step s (record s { consumers = before ++ exited ∷ after })
    work :
        (before after : List Consumer) (c n : ℕ)
        → Consuming s before (working c n) after
        → Step s (record s {
          consumers = before ++ waiting ∷ after;
          inflight = s.inflight - n;
          result_q = s.result_q ++ c ∷ [];
        })
    record_result :
        (c : ℕ) (rest : List ℕ)
        → s.result_q ≡ c ∷ rest
        → Step s (record s { result_q = rest; recorded = s.recorded ++ c ∷ [] })

  pub data Reach (s : Pipeline) : Pipeline → Type 0 where
    here : Reach s s
    and_then : (t u : Pipeline) → Reach s t → Step t u → Reach s u
