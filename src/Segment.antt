-- ===== src/Segment.antt =====
-- bmpclient/_vm_segment.py: the segments of one device's extent, and the buffer that gathers
-- units until a whole segment is written.
--
-- Offsets come from `append` itself or from packed entries, so they are not negative. The lock
-- makes each method one step. `none` in `buf_seg` is Python's -1.
pub mod Geometry
pub mod Manager
pub mod Count
pub mod Invariant
pub mod Steps
pub mod Append
pub mod Buffering
pub mod Handover
pub mod Methods
pub mod Release
pub use Manager.*
