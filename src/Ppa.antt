-- ===== src/Ppa.antt =====
-- scripts/ppa_selection.py: the cache of tokens, and the selection of misses by the planes of their pages.
pub mod BatchLru
pub mod Commits
pub mod Counter
pub mod Squares
pub mod Mapping
pub mod Pressure
pub mod Ranking
pub mod Selection
pub mod Sets
pub mod Choices
pub mod Recount
pub mod Objectives
pub mod Swapped
pub mod Swaps
pub mod Entries
pub mod Exchanges
pub mod Outcomes
