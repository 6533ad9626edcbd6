-- ===== src/Lib.antt =====
-- bmpclient, a Python client of UMM memory and SSD tiers: its chunk allocator, the media layer on which the
-- cache of a sparse attention model is kept, the replays of its benchmarks, and the selection of cache misses
-- by the planes of their pages.
--
-- The parts and the files that model them:
--   Umm           bmpclient/umm_client.py. The methods of `UMMLib` call libumm, a C library, through
--                 ctypes. They are the fields of the record `UmmLib`, over a state `Dev` of the
--                 devices; a field may raise, and its effect on `Dev` stays. Every definition that
--                 reaches a device takes a `UmmLib`. Three theorems assume how it answers, as libumm
--                 documents its calls: `alloc-Served`, that a new chunk has an id that is not in
--                 use and at least the size asked for, `init-Constructed`, that a chunk is in use
--                 from its allocation until it is freed and that the topology can be asked for
--                 without an effect on the chunks, and `requests-read_buckets`, that a read within
--                 an extent gives the bytes that are stored there.
--                 Umm/Clib has these methods over the C functions, which are the fields of `CLib`.
--   Fake          bmpclient/testing.py: `_FakeCLib`, libumm in memory, as a `CLib`, and `FakeUMMLib`
--                 as the `UmmLib` over it. Memory is a memory of cells with the same calls; Cells,
--                 Refinement and Calls are the proofs.
--   Allocator     bmpclient/allocator.py and `create_chunk` of bmpclient/client.py.
--                 ChunkBuffer is the free list of one chunk: `buffer_alloc` (first fit, `alloc`),
--                 `buffer_free` (sort and merge, `free`), `is_fully_free`. Table has the dicts of
--                 chunks as association lists in the order of insertion and the search of `alloc`;
--                 FineGrained has the methods `alloc`, `free`, `preallocate_chunks`, `read`,
--                 `write` and `close` of `FineGrainedAllocator`. Canonical, Held and Sound say what
--                 a sound free list, a sound table and a sound allocator are; Alloc, Free, Whole,
--                 Search, Tables, Blocks and Giveback are the proofs.
--   SlotTable     bmpclient/sparse_kv/slot_table.py: Entry packs an offset and flags into one word,
--                 SlotTable is the class of that name, method by method; Grid, Updates and Reads
--                 are the lemmas.
--   Strategy      bmpclient/virtual_media_strategy.py: `is_prime`, and `PositionHashStrategy` with
--                 the checks of its constructor, `locate` and `locate_batch`. Prime, Coprime and
--                 Placement are the proofs.
--   Segment       bmpclient/_vm_segment.py: `check_segment_geometry` in Geometry and
--                 `DeviceSegmentManager` in Manager (`append`, `flush`, `release`, `is_buffered`,
--                 `read_buffer`). Count and Invariant say what a well-formed manager is, against
--                 the list of the live offsets; Steps, Append, Buffering, Handover, Methods and Release are
--                 the proofs.
--   VirtualMedia  bmpclient/virtual_media.py: Runs has `_merge_runs`, Staging
--                 what is copied out of the buffer of a run, Media the methods of
--                 `VirtualMedia` (`write`, `flush`, `is_buffered`, `read_buffered`, `release`,
--                 `close`), Batch has `read_batch` with what bmpclient/concurrent_io.py does for
--                 it, Open the constructor, which takes the answer of `get_topology` as a
--                 parameter; Writes, Looks, Spans, Merged, Fresh, Limits and
--                 Rollback are the proofs.
--   ConcurrentIo  bmpclient/concurrent_io.py: Handle has `IOAddress`, `IORequest` and `IOHandle`, each
--                 method one step under the handle's condition; Engine the checks of the
--                 constructor, the groups of `_submit`, `_execute_one` and `_run_group`. System is
--                 a batch on its way through the engine, as a step relation: a request takes a
--                 permit and joins its group, a group is handed over or refused, a worker runs a
--                 group that was handed over. Which enabled step comes next is open, so that a run
--                 of the relation is any interleaving of the workers at the grain of whole groups: the
--                 requests of a group, the counters, the permits and the results are one step, so
--                 the order of these parts of `_run_group` is not seen.
--                 Grouping, Weights, Slots, Accounting, Balance and Progress are the proofs.
--   SparseKv      bmpclient/sparse_kv/store.py and the block reference of vllm_adapter.py: Layout
--                 has the bytes of a descriptor, Store, Planning and Fetch the methods of
--                 `SparseKVStore`; Lengths, Described, Plans, Views, Offloads, Stale and Releases
--                 are the proofs.
--   Ppa           scripts/ppa_selection.py: BatchLru is the class `BatchLRU`; Mapping has `DenseMapping`
--                 and `load_mapping`, behind the reader of CSV; Counter and Pressure what `pressure` and
--                 `objective` count; Ranking and Selection are `select`, over the comparisons of scores
--                 as a parameter. Sets, Squares, Recount, Objectives, Choices, Swapped, Swaps,
--                 Entries, Exchanges, Outcomes and Commits are the proofs.
--   Bench         bmpclient/bench. MultiDevice has the placements by layer and `layer_capacities` of
--                 multi_device.py; Sums and Capacities are the proofs. Trace, ReadPlan and DirectPool
--                 are `load_trace`, `plan_rows` and the class `DirectPool` of single_ssd.py, the last
--                 over the C functions and the answer of `ssd_pool_create` as parameters; Checks, Bases, Loads and Runs are the proofs.
--                 Geometry, MissTrace and PoolClient are `geometry`, `validate_miss_trace` and the class
--                 `PoolClient` of layout_replay.py; Bytes, Room, Latest, Order, Fields, Scenario,
--                 Verdict, Extents, Accounts and Windows are the proofs. `calls_account` assumes of the native pool that it holds what
--                 is allocated and not yet freed.
--   Tests         runs of the model, and the theorems at concrete arguments.
--   Prelude       the shared names: Tests (Boolean tests on ℕ), Lists, Outcome (Python's exceptions
--                 as values), Action (methods that change an object and may raise: the state comes
--                 back beside an error too), Ensures (what holds of a call that returns), Int
--                 (Python's integers), Dict (a dict with integer keys), SortedSet, Bits, Splice (slices
--                 of a buffer) and Pigeonhole.
--
-- How they interact: a write of `VirtualMedia` asks the strategy for the device of a key and hands
-- the unit to the segment manager of that device, which collects units into segments and writes
-- whole segments through `UmmLib`. The offset that comes back is what the sparse KV store keeps in
-- its slot table for the key; `plan` turns the offsets of the wanted tokens into addresses. A worker
-- of the concurrent engine calls `UmmLib` too. The allocator is a second, separate client of `UmmLib`.
--
-- Numbers: sizes, offsets and ids are natural numbers; an argument whose sign the code tests is an
-- integer. Python's integers have no bound, so none wraps around; the 64 bits of an entry are what
-- Entry is about. A lock makes each method one step, so a method is one function on the state.
--
-- Scores of the selection are floating point numbers, of which only the comparisons and the
-- difference are used; these are parameters.
--
-- Loops are structural recursion, but for the trial division of `is_prime`: its rounds are bounded by
-- the number itself, which is enough, as the divisor grows by two in each and stops at the root.
--
-- Not modelled: the set-up of a session and the reading of configuration files, the
-- registry of strategies, the statistics of the media and the store, the waiting with a time-out and
-- the executors of `ConcurrentIOEngine` (`wait_all`, `wait_any`, `close`), several batches at once,
-- the rest of the benchmarks and simulations under bmpclient/bench and scripts, the demos, and the C
-- code under umm.
mod Prelude
pub mod Umm
pub mod Fake
pub mod Allocator
pub mod SlotTable
pub mod Strategy
pub mod Segment
pub mod VirtualMedia
pub mod ConcurrentIo
pub mod SparseKv
pub mod Ppa
pub mod Bench
mod Tests
