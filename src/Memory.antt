-- ===== src/Memory.antt =====
-- The memory the factorization reuses: the contribution stack, the chunk arena and the buffer pool.
pub mod FactorStack
pub mod ChunkArena
pub mod ContribPool
