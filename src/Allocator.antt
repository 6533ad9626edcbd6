-- ===== src/Allocator.antt =====
-- bmpclient/allocator.py: chunks of UMM memory cut into blocks.
pub mod ChunkBuffer
pub mod Canonical
pub mod Alloc
pub mod Free
pub mod Whole
pub mod Table
pub mod FineGrained
pub mod Held
pub mod Search
pub mod Tables
pub mod Sound
pub mod Blocks
pub mod Giveback
