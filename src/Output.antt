-- ===== src/Output.antt =====
-- dvc/hash_info.py, dvc/output/base.py and dvc/output/local.py.
pub mod HashInfo
pub mod Defs
pub mod Clean
pub mod Save
