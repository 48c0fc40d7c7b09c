-- ===== src/Jobs.antt =====
-- The job runtime: jobs/context.py, jobs/registry.py, jobs/queue.py, jobs/reconcile.py and the
-- per-root holder of roots.py.
pub mod Row
pub mod Table
pub mod Stream
pub mod Registry
pub mod Queue
pub mod Reconcile
mod Samples
