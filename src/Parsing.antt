-- ===== src/Parsing.antt =====
-- dvc/parsing: the context of values that a dvc.yaml is filled in with.
pub mod Nodes
pub mod Merge
pub mod Text
pub mod Interpolate
pub mod Pieces
pub mod Context
pub mod Laws
pub mod Tracking
pub mod Resolver
mod Tests
