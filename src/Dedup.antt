-- ===== src/Dedup.antt =====
-- Finding near-duplicates: src/packrat/matcher.py and src/packrat/jobs/dedup_rank.py.
pub mod Apply
pub mod Matcher
pub mod Plan
pub mod Rank
pub mod Run
mod Samples
