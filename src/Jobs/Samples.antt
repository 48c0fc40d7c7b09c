-- ===== src/Jobs/Samples.antt =====
-- Runs of the queue on small inputs, and the theorems at such inputs.
use packrat.Prelude.{ℕ, ◌≤◌, ◌≡◌, refl, true, none, some, List, [], ◌∷◌, inr, All, Has}
use packrat.Jobs.Row.{
  Job, scan, dedup, Params, no_params, is_queued, ReviewRun, pending, parse_params,
}
use packrat.Jobs.Table.{
  new_row, find_job, update_job, max_id, backlog, insert_ordered, comes_before,
}
use packrat.Jobs.Table.History.{count_probes}
use packrat.Jobs.Registry.{
  JobSpec, get_job_spec, root_holder, pending_review, open_merge, root_of_params, dedup_owned_root,
}
use packrat.Jobs.Queue.{
  Queue, submit, pump, pump_rows, verdict, is_runnable, start, create_job_row, dedup_probe,
  prioritize, owned,
}
use packrat.Jobs.Queue.Invariant.{RunsOnly, worker_job}
use packrat.Jobs.Queue.Steps.{Step, Reach, here, next, empty_queue}
use packrat.Jobs.Queue.OneWorker.{count_running, one_running}
use packrat.Jobs.Queue.Dispatch.{Picked, pump-first_runnable, pump-busy}
use packrat.Jobs.Queue.Probes.{Persists, rows_persist, one_waiting_probe}
use packrat.Jobs.Queue.Exclusive.{Unheld, pump-exclusive, prioritize-front, InFront}

abbrev at_root : ℕ → Params
at_root r = record no_params { root_id = some r }

-- What a run of the queue computes through.
program : Unit {0}
unfolding submit pump pump_rows verdict is_runnable start create_job_row dedup_probe get_job_spec
    root_of_params dedup_owned_root root_holder pending_review open_merge max_id backlog
    insert_ordered comes_before update_job
program = tt

-- A scan of root 7, submitted to the empty queue.
abbrev sampled : Queue
sampled = pump 5 (create_job_row 5 scan (at_root 7) empty_queue)

sampled-Step : Step empty_queue sampled
unfolding program
sampled-Step = Step.submitted 5 scan (at_root 7) sampled 1 refl

sampled-Reach : Reach empty_queue sampled
sampled-Reach = next here sampled-Step

one_running_example :
    (count_running sampled.jobs ≤ 1)
    × (sampled.running_job_id ≡ worker_job sampled.worker)
    × All (RunsOnly sampled.running_job_id) sampled.jobs
one_running_example = one_running sampled sampled-Reach

rows_persist_example : Persists sampled.jobs (pump 9 sampled).jobs
rows_persist_example = rows_persist sampled (pump 9 sampled) (Step.pumped 9)

one_waiting_probe_example : count_probes 7 sampled.jobs ≤ 1
one_waiting_probe_example = one_waiting_probe sampled 7 sampled-Reach

pump-busy_example : pump 9 sampled ≡ sampled
unfolding program
pump-busy_example = pump-busy 9 1 sampled (inr refl)

-- A dedup of root 7, whose review is pending, and behind it a scan of root 8.
abbrev waiting_jobs : List Job
waiting_jobs = new_row 1 5 dedup (at_root 7) ∷ new_row 2 6 scan (at_root 8) ∷ []

abbrev held : ReviewRun
held = record {
  id = 1;
  root_id = 7;
  status = pending;
  stage = 1;
  stage_phase = none;
  confirmed_at = none;
}

abbrev held_queue : Queue
held_queue = record empty_queue { jobs = waiting_jobs; reviews = held ∷ [] }

pump-first_runnable_example :
    Picked held_queue.reviews held_queue.merges held_queue.jobs (pump 9 held_queue).running_job_id
pump-first_runnable_example = pump-first_runnable 9 held_queue refl refl

-- The scan passes the dedup.
pump_held : (pump 9 held_queue).running_job_id ≡ some 2
unfolding program
pump_held = refl

pump-exclusive_example :
    (j : Job) × Has j held_queue.jobs
    × (j.id ≡ 2)
    × (is_queued j.status ≡ true)
    × ((spec : JobSpec)
        → get_job_spec j.type ≡ some spec
        → owned spec.owned_root (parse_params j.params_json) ≡ some 8
        → Unheld held_queue.reviews held_queue.merges spec.ignore_merge_holder 8)
pump-exclusive_example = pump-exclusive 9 2 8 held_queue refl refl pump_held

-- A job runs, and the second of the waiting ones is prioritized.
abbrev busy_queue : Queue
busy_queue = record held_queue { running_job_id = some 3 }

found_second : find_job 2 busy_queue.jobs ≡ some (new_row 2 6 scan (at_root 8))
unfolding find_job
found_second = refl

prioritize-front_example :
    ((prioritize 9 2 busy_queue).1 ≡ true)
    × ((i : Job) × (find_job 2 (prioritize 9 2 busy_queue).0.jobs ≡ some i)
        × (is_queued i.status ≡ true)
        × All (InFront i) (prioritize 9 2 busy_queue).0.jobs)
prioritize-front_example =
    prioritize-front 9 2 3 busy_queue (new_row 2 6 scan (at_root 8)) refl found_second refl
