-- ===== src/Jobs/Reconcile/Samples.antt =====
-- Daemon starts over small tables, and streams that end.
use packrat.Prelude.{◌≡◌, true, some, List, [], ◌∷◌, arith}
use packrat.Jobs.Row.{Job, dedup, scan, running, no_params}
use packrat.Jobs.Table.{new_row}
use packrat.Jobs.Stream.{Subscriber, close_subscribers}
use packrat.Jobs.Stream.Bounds.{EndsOf, close_subscribers-EndsOf}
use packrat.Jobs.Reconcile.{reconcile_on_startup}
use packrat.Jobs.Queue.{Queue}
use packrat.Jobs.Queue.Steps.{empty_queue}
use packrat.Jobs.Reconcile.Startup.{reconcile-idempotent}

-- A running scan, a queued confirm and a queued scan.
abbrev left_over : List Job
left_over =
    record (new_row 1 5 scan no_params) { status = running }
    ∷ new_row 2 6 dedup (record no_params { root_id = some 7; confirm = true })
    ∷ new_row 3 7 scan no_params
    ∷ []

reconcile-idempotent_example :
    let first = reconcile_on_startup 9 left_over [] in
    let second = reconcile_on_startup 12 first.jobs first.rollback.reviews in
    (second.jobs ≡ first.jobs)
    × (second.rollback.reviews ≡ first.rollback.reviews)
    × (second.rollback.removed ≡ [])
reconcile-idempotent_example = reconcile-idempotent 9 12 left_over []

abbrev attached : List Subscriber
attached = record { sid = 1; job_id = 4; q = [] } ∷ record { sid = 2; job_id = 5; q = [] } ∷ []

close_subscribers-EndsOf_example : EndsOf 4 attached (close_subscribers 4 attached)
close_subscribers-EndsOf_example = close_subscribers-EndsOf 4 attached (omega arith)

abbrev stopped_queue : Queue
stopped_queue = record empty_queue { jobs = left_over }
