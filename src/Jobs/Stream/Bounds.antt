-- ===== src/Jobs/Stream/Bounds.antt =====
-- The subscriber queues stay bounded, and a job's end reaches its subscribers.
use packrat.Prelude.{
  ℕ, ◌≤◌, ◌≡◌, ◌≢◌, ◌+◌, refl, ==_iff, Option, none, some, List, [], ◌∷◌, ◌++◌, length,
  length-append, arith, ◌⊎◌, inl, inr, All, ◌==◌, Bool-cases, ==_false,
}
use mathlib.Core.List.{append_assoc}
use packrat.Jobs.Row.{ProgressEvent}
use packrat.Jobs.Stream.{
  Subscriber, max_size, put_nowait, push, close, broadcast, close_subscribers,
}

abbrev pub IsBounded : Subscriber → Type 0
IsBounded s = length s.q ≤ max_size

put_nowait-IsBounded :
    (item : Option ProgressEvent) (s : Subscriber) → IsBounded s → IsBounded (put_nowait item s)
unfolding put_nowait
put_nowait-IsBounded item s h = ground (arith, length-append s.q (item ∷ []))

-- A broadcast leaves every queue within its capacity, if it was.
pub broadcast-IsBounded :
    (ev : ProgressEvent) (subs : List Subscriber)
    → All IsBounded subs
    → All IsBounded (broadcast ev subs)
unfolding broadcast push
broadcast-IsBounded ev [] h = tt
broadcast-IsBounded ev (s ∷ subs) h =
    ground (arith, put_nowait-IsBounded (some ev) s, broadcast-IsBounded ev subs h.1)

-- What a reader of the queue finds at its end: the sentinel, unless the queue was full.
abbrev pub Ended : Subscriber → Subscriber → Type 0
Ended before after =
    (after.q ≡ before.q ++ none ∷ []) ⊎ ((after.q ≡ before.q) × (length before.q ≡ max_size))

abbrev pub EndsOf : ℕ → List Subscriber → List Subscriber → Type 0
EndsOf job [] [] = Unit
EndsOf job [] (t ∷ ts) = ⊥
EndsOf job (s ∷ ss) [] = ⊥
EndsOf job (s ∷ ss) (t ∷ ts) =
    ((s.job_id ≡ job → Ended s t) × (s.job_id ≢ job → t ≡ s)) × EndsOf job ss ts

close-Ended : (s : Subscriber) → IsBounded s → Ended s (close s)
unfolding close put_nowait
close-Ended s h = ground arith

-- When a job's streams are closed, each of its subscribers gets the sentinel behind what already
-- waits in its queue, except where the queue is full and stays as it is; the subscribers of other
-- jobs are not touched.
pub close_subscribers-EndsOf :
    (job : ℕ) (subs : List Subscriber)
    → All IsBounded subs
    → EndsOf job subs (close_subscribers job subs)
unfolding close_subscribers
close_subscribers-EndsOf job [] h = tt
close_subscribers-EndsOf job (s ∷ subs) h = elim (Bool-cases (s.job_id == job)) [
  | inl mine ↦ rw mine (
    ((λ _. close-Ended s h.0), (λ other. absurd (other ((==_iff s.job_id job).0 mine)))),
    close_subscribers-EndsOf job subs h.1,
  )
  | inr other ↦ rw other (
    ((λ e. absurd (==_false s.job_id job other e)), (λ _. refl)),
    close_subscribers-EndsOf job subs h.1,
  )
]

-- Closing twice queues two sentinels, as long as there is room for both.
pub close-close :
    (s : Subscriber) → length s.q + 2 ≤ max_size → (close (close s)).q ≡ s.q ++ none ∷ none ∷ []
unfolding close put_nowait
close-close s room =
    ground (arith, length-append s.q (none ∷ []), append_assoc s.q (none ∷ []) (none ∷ []))
