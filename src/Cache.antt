-- ===== src/Cache.antt =====
-- dvc/cache/__init__.py: the named cache items (Named), and what they list (Keys). dvc/cache/base.py: what a
-- cache holds (Listing), and how it is checked out (Checkout).
pub mod Named
pub mod Keys
pub mod Listing
pub mod Checkout
mod Tests
