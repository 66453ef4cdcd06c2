-- ===== src/Memory.antt =====
-- pkg/memory: the stores of document chunks.
pub mod Store
