-- ===== src/Lock.antt =====
-- dvc/stage/serialize.py and dvc/stage/loader.py: a stage in the lock file.
pub mod Defs
pub mod Sorted
pub mod Lookup
pub mod Params
pub mod RoundTrip
pub mod File
mod Tests
