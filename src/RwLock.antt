-- ===== src/RwLock.antt =====
-- dvc/rwlock.py: the lock file that lists which process reads and writes which path.
pub mod Defs
pub mod Checks
pub mod Acquire
pub mod Release
pub mod Exclusion
pub mod Safety
pub mod Unreadable
mod Tests
