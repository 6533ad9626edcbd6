-- ===== src/Tests.antt =====
-- Runs of the model on small inputs, and the theorems at concrete arguments.
mod SlotTables
mod Strategies
mod Segments
mod Allocators
mod Media
mod Stores
mod Engines
mod Fakes
mod Caches
mod Opens
mod Benches
mod Traces
mod Replays
mod Selections
