-- ===== src/ConcurrentIo.antt =====
-- bmpclient/concurrent_io.py: batches of reads and writes over worker threads.
pub mod Handle
pub mod Engine
pub mod System
pub mod Grouping
pub mod Weights
pub mod Slots
pub mod Accounting
pub mod Balance
pub mod Progress
