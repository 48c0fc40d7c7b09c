-- ===== src/Merge.antt =====
-- The merge job, src/packrat/jobs/merge.py.
pub mod Disk
pub mod Copy
pub mod Plan
mod Samples
