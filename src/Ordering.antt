-- ===== src/Ordering.antt =====
-- Elimination orders.
pub mod Pivot
