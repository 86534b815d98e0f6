-- ===== src/Repo.antt =====
-- dvc/repo/reproduce.py.
pub mod Reproduce
pub mod Order
pub mod Force
pub mod Graph
mod Tests
