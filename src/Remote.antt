-- ===== src/Remote.antt =====
-- dvc/remote/index.py and dvc/remote/base.py: the index of a remote, the status of its files, and the
-- transfers.
pub mod Index
pub mod IndexLaws
pub mod Status
pub mod Exact
pub mod Transfer
pub mod PushLaws
pub mod Outcome
mod Tests
