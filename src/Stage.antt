-- ===== src/Stage.antt =====
-- dvc/stage/__init__.py.
pub mod Defs
pub mod Create
pub mod Duplicates
pub mod Created
pub mod Clean
pub mod Changed
pub mod Reproduce
mod Tests
mod CreateTests
