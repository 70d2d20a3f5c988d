-- ===== src/Copy.antt =====
-- src/xrd/copy/engine.py: how a transfer is split, and how its parts run side by side.
pub mod Plan
pub mod Parallel
pub mod Ahead
pub mod Transfer
