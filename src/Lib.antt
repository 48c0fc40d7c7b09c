-- ===== src/Lib.antt =====
-- Packrat keeps a catalogue of photo and video folders. A daemon owns the database and runs one job
-- at a time; a terminal interface shows what it does. This library models the parts that decide.
--
-- The job queue (src/packrat/jobs/queue.py):
--   Jobs/Row.antt        a row of the tables jobs, review_runs and merge_runs (src/packrat/db/schema.py),
--                        and the events of src/packrat/jobs/context.py
--   Jobs/Table.antt      the SQL statements of the queue on a list of rows
--   Jobs/Stream.antt     the subscribers of a job's event stream, bounded queues
--   Jobs/Registry.antt   the job types and the root that each owns (src/packrat/jobs/registry.py and the
--                        register_job calls), and root_holder of src/packrat/roots.py
--   Jobs/Queue.antt      JobQueue: submit, _pump, _start, _run_job, _finish, _release, cancel,
--                        prioritize, cancel_all_queued, shutdown, blocked_reason
--   Jobs/Reconcile.antt  reconcile_on_startup (src/packrat/jobs/reconcile.py)
-- A state of the queue is a record: the rows, the slot, the worker's progress, the cancel flag, the
-- stop flag and the streams. A method under the lock is one function. The worker thread's code is cut
-- at the points where another thread may run, and Jobs/Queue/Steps.antt gives the steps: any call by
-- any thread, in any order. submit, prioritize and the end of _run_job give the lock back before they
-- pump: their halves are steps too. The tables reviews and merges are changed by job handlers at any time
-- while a job runs.
--
-- The layout of the terminal interface (src/packrat/tui/layout.py):
--   Tui/Text.antt  widths in cells, truncation, padding and eliding
--   Tui/Row.antt   rows of cells with growing widths, and the pager line
--   Tui/Fit.antt   blocks of a fixed number of rows
--   Tui/Wrap.antt  wrapping of text and of key hints
-- A text is a list of code points, and which of them are wide is a parameter, since that is
-- unicodedata's table. Numbers are printed by a parameter. The loop that breaks up a long word runs on
-- fuel, one more than the word's length, which is enough from two cells on.
--
-- Near-duplicates:
--   Dedup/Matcher.antt   src/packrat/matcher.py: Hamming distances, match_photos, match_videos
--   Dedup/Rank.antt      src/packrat/jobs/dedup_rank.py: ranking keys and the lead of a group
--   Dedup/Plan.antt      src/packrat/jobs/dedup.py: _plan_exact
--   Dedup/Apply.antt     src/packrat/jobs/dedup.py: _intends_delete, _keep_suggested_intended, _apply_stage
--   Dedup/Run.antt       src/packrat/jobs/dedup.py: _analyze, _confirm, _cancel and _stage_and_pause
-- A run is its row, and what its stages plan, stage and apply is an interface, where each may stop by an
-- exception or a cancel; the chain of stages runs
-- on fuel three, the number of stages. The disk is the list of the paths at which files stand.
-- A blob is a list of bytes, a dict is a list of entries in the order of insertion. Floats are a
-- parameter with the operations used; a division by zero is `none`.
--
-- The merge job (src/packrat/jobs/merge.py):
--   Merge/Disk.antt  _place_copy, on a list of paths with their contents
--   Merge/Copy.antt  _copy_and_register, with the tables assets and file_instances
--                    (src/packrat/jobs/scan.py _upsert_instance, src/packrat/jobs/_dbops.py)
--   Merge/Plan.antt  _build_plan, _classify_hash and _dry_run
-- What the operating system answers is a parameter, with each call free to fail. The paths of the disk
-- are in their normal case, as Windows compares them. The loop that looks
-- for a free name runs on fuel, one more than the number of files, since each try that fails meets
-- another file.
--
--
-- The scan job (src/packrat/jobs/scan.py) and the roots (src/packrat/roots.py):
--   Paths.antt           paths, and the tests of src/packrat/fsutil.py
--   Prelude/Groups.antt  dicts of lists, by the key of a member
--   Roots.antt           register, resolve_root and resolve_dest
--   Scan/Walk.antt       enumerate_root, on a tree of what the disk answers
--   Scan/Known.antt      load_existing_instances, is_fastpath_hit and plan_moves
--   Scan/Catalogue.antt  the persistence helpers and _resolve_and_persist
--   Scan/Pass.antt       the loop of _scan_one_root and _detect_deletions
--   Scan/Pipeline.antt   the threads of _run_photo_pipeline, while nothing cancels it
--   Ignore.antt          src/packrat/ignore.py: the translation of globs, and what they ignore
-- The tree is finite, so that a junction that leads back to a folder above it is not modelled. The walk
-- runs on fuel, two more than there are folders in the tree. A pass takes the walk's candidates
-- and suppressed folders and the known rows of the root; what it resolves goes to the catalogue.
-- Resolving a file is one step; the pipeline's threads are modelled on their own, without the catalogue.
--
-- Times are numbers, a clock that the caller reads. Tests that stand for SQL follow its order and its
-- treatment of NULL.
--
-- Not modelled: the handlers of the jobs cleanup, probe, untrash and trash_refresh, of which only the
-- owned root and the effect at a daemon start stand here; the groups and the
-- shortcuts of the dedup's later stages, the reports;
-- and SQLite and its locks, the HTTP server and its client, decoding, the command line and the
-- widgets, which are I/O or calls of other programs.
pub mod Dedup
pub mod Ignore
pub mod Jobs
pub mod Merge
pub mod Paths
pub mod Prelude
pub mod Roots
pub mod Scan
pub mod Tui
