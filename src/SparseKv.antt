-- ===== src/SparseKv.antt =====
-- bmpclient/sparse_kv/store.py: the store of a request over the media and the slot table.
pub mod Layout
pub mod Store
pub mod Planning
pub mod Fetch
pub mod Described
pub mod Plans
pub mod Lengths
pub mod Views
pub mod Offloads
pub mod Stale
pub mod Releases
