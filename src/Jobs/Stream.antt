-- ===== src/Jobs/Stream.antt =====
-- The SSE fan-out of jobs/queue.py: bounded queues of events, one for each attached client.
-- The dict of subscriber lists is one list, a subscriber's object identity is `sid`, and what a
-- queue holds is a list of events with `none` for the end-of-stream sentinel.
pub mod Bounds
use packrat.Prelude.{
  ℕ, suc, ◌+◌, Option, none, some, List, [], ◌∷◌, ◌++◌, length, ltb, ◌==◌, if◌then◌else◌,
}
use packrat.Jobs.Row.{ProgressEvent}

pub record Subscriber : Type 0 where
  pub sid : ℕ
  pub job_id : ℕ
  pub q : List (Option ProgressEvent)

abbrev pub max_size : ℕ
max_size = 1000

-- `put_nowait` with the `Full` exception caught: an item for a full queue is dropped.
unfoldable pub put_nowait : Option ProgressEvent → Subscriber → Subscriber
put_nowait item s = if ltb (length s.q) max_size then record s { q = s.q ++ item ∷ [] } else s

unfoldable pub push : ProgressEvent → Subscriber → Subscriber
unfolding put_nowait
push ev s = put_nowait (some ev) s

unfoldable pub close : Subscriber → Subscriber
unfolding put_nowait
close s = put_nowait none s

unfoldable pub subscribe : ℕ → ℕ → List Subscriber → List Subscriber
subscribe sid job_id subs = subs ++ record { sid = sid; job_id = job_id; q = [] } ∷ []

-- subs.remove(sub): the one entry with this identity.
unfoldable pub remove : ℕ → List Subscriber → List Subscriber
remove sid [] = []
remove sid (s ∷ subs) = let rest = remove sid subs in if s.sid == sid then subs else s ∷ rest

-- The hub without the subscriber, and the subscriber itself, which is closed in every case.
unfoldable pub unsubscribe : Subscriber → List Subscriber → List Subscriber × Subscriber
unfolding remove close
unsubscribe sub subs = (remove sub.sid subs, close sub)

unfoldable pub broadcast : ProgressEvent → List Subscriber → List Subscriber
unfolding push
broadcast ev [] = []
broadcast ev (s ∷ subs) = (if s.job_id == ev.job_id then push ev s else s) ∷ broadcast ev subs

unfoldable pub close_subscribers : ℕ → List Subscriber → List Subscriber
unfolding close
close_subscribers job_id [] = []
close_subscribers job_id (s ∷ subs) =
    (if s.job_id == job_id then close s else s) ∷ close_subscribers job_id subs

unfoldable pub close_all_subscribers : List Subscriber → List Subscriber
unfolding close
close_all_subscribers [] = []
close_all_subscribers (s ∷ subs) = close s ∷ close_all_subscribers subs
