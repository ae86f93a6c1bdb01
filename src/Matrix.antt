-- ===== src/Matrix.antt =====
-- Sparse matrices: the storage format, its checks and conversions, and graphs of a pattern.
pub mod Csc
pub mod Columns
pub mod Runs
pub mod Rank
pub mod Coo
pub mod Clean
