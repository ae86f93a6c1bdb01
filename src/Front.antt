-- ===== src/Front.antt =====
-- Dense fronts: symmetric swaps, pivot choice and elimination of one pivot.
pub mod Matrix
pub mod Scalar
pub mod Swap
pub mod Choose
pub mod Eliminate
