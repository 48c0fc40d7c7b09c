-- ===== src/Scan.antt =====
-- The scan job, src/packrat/jobs/scan.py.
pub mod Walk
pub mod Known
pub mod Catalogue
pub mod Pass
pub mod Pipeline
mod Samples
