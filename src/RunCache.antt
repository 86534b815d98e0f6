-- ===== src/RunCache.antt =====
-- dvc/stage/cache.py: the run cache.
pub mod Defs
pub mod Store
pub mod Keys
pub mod Own
pub mod Reached
mod Tests
