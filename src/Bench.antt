-- ===== src/Bench.antt =====
-- bmpclient/bench: the layouts of a replay over several devices, the traces, the reads and the pool.
pub mod MultiDevice
pub mod Sums
pub mod ReadPlan
pub mod Runs
pub mod Trace
pub mod Checks
pub mod Bases
pub mod Loads
pub mod Geometry
pub mod Bytes
pub mod Room
pub mod Latest
pub mod Order
pub mod MissTrace
pub mod Fields
pub mod Scenario
pub mod Verdict
pub mod DirectPool
pub mod PoolClient
pub mod Extents
pub mod Accounts
pub mod Windows
pub mod Capacities
