-- ===== src/Mm.antt =====
-- mm.c: the segregated free-list allocator.
pub mod Header
pub mod Blocks
pub mod FreeList
pub mod Coalesce
pub mod Fit
pub mod Alloc
pub mod Check
