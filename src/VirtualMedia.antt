-- ===== src/VirtualMedia.antt =====
-- bmpclient/virtual_media.py
pub mod Runs
pub mod Staging
pub mod Media
pub mod Looks
pub mod Batch
pub mod Spans
pub mod Merged
pub mod Writes
pub mod Open
pub mod Fresh
pub mod Limits
pub mod Rollback
