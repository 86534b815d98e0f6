-- ===== src/PathInfo.antt =====
-- dvc/path_info.py: the path objects (Defs), the order that `isin` and `overlaps` make (Overlap), and
-- a reading of POSIX texts for the tests (Posix).
pub mod Defs
pub mod Overlap
pub mod Url
pub mod Posix
mod Tests
