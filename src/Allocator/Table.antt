-- ===== src/Allocator/Table.antt =====
-- The tables of chunks of `FineGrainedAllocator` of bmpclient/allocator.py, and the search of
-- `alloc` in them. A media type that is none of the two names is `none`.
use ummwith_client.Prelude.{
  ℕ, Bool, true, false, Option, none, some, List, [], ◌∷◌, Result, ok, err, value_error, ◌==◌,
  if◌then◌else◌,
}
use ummwith_client.Umm.{ChunkDescriptor}
use ummwith_client.Allocator.ChunkBuffer.{Media, dram, ssd, ChunkBuffer, buffer_alloc}

pub record Block : Type 0 where
  pub chunk_id : ℕ
  pub offset : ℕ
  pub size : ℕ
  pub gpa : ℕ
  pub chunk_size : ℕ

-- A dict of chunks, in the order of insertion.
abbrev pub Chunks : Type 0
Chunks = List (ℕ × ChunkBuffer)

pub record Allocator : Type 0 where
  pub default_chunk_size : ℕ
  pub dram_chunks : Chunks
  pub ssd_chunks : Chunks

abbrev pub chunks_of : Media → Allocator → Chunks
chunks_of dram a = a.dram_chunks
chunks_of ssd a = a.ssd_chunks

abbrev pub with_chunks : Media → Chunks → Allocator → Allocator
with_chunks dram cs a = record a { dram_chunks = cs }
with_chunks ssd cs a = record a { ssd_chunks = cs }

unfoldable pub find : ℕ → Chunks → Option ChunkBuffer
find id [] = none
find id ((k, cb) ∷ rest) = if k == id then some cb else find id rest

-- `chunks[id] = cb`: an old key keeps its place.
unfoldable pub put : ℕ → ChunkBuffer → Chunks → Chunks
put id cb [] = (id, cb) ∷ []
put id cb ((k, old) ∷ rest) = if k == id then (k, cb) ∷ rest else (k, old) ∷ put id cb rest

-- `del chunks[id]`
unfoldable pub remove : ℕ → Chunks → Chunks
remove id [] = []
remove id ((k, cb) ∷ rest) = if k == id then rest else (k, cb) ∷ remove id rest

-- `get_chunk_buffer`
unfoldable pub get_chunk_buffer : Allocator → ℕ → Option ChunkBuffer
unfolding find
get_chunk_buffer a id = elim (find id a.dram_chunks) [
  | some cb ↦ some cb
  | none ↦ find id a.ssd_chunks
]

-- The two checks of the arguments of `alloc` and `preallocate_chunks`.
unfoldable pub check_media : Option Media → Option ℕ → Result Media
check_media none device = err value_error
check_media (some dram) (some d) = err value_error
check_media (some dram) none = ok dram
check_media (some ssd) device = ok ssd

abbrev pub same_device : Option ℕ → Option ℕ → Bool
same_device none none = true
same_device none (some e) = false
same_device (some d) none = false
same_device (some d) (some e) = d == e

abbrev pub block_of : ℕ → ℕ → ℕ → ChunkBuffer → Block
block_of id offset size cb = record {
  chunk_id = id;
  offset = offset;
  size = size;
  gpa = cb.base_gpa;
  chunk_size = cb.total_size;
}

abbrev pub keep_chunk : ℕ → ChunkBuffer → Option (Block × Chunks) → Option (Block × Chunks)
keep_chunk id cb none = none
keep_chunk id cb (some (block, rest)) = some (block, (id, cb) ∷ rest)

-- The block from this chunk, or else from the later ones.
abbrev pub cut_from :
    ℕ
    → ℕ
    → ChunkBuffer
    → Chunks
    → Option (Block × Chunks)
    → Option (ℕ × ChunkBuffer)
    → Option (Block × Chunks)
cut_from size id cb rest later none = keep_chunk id cb later
cut_from size id cb rest later (some (offset, cb')) =
    some (block_of id offset size cb, (id, cb') ∷ rest)

-- The loop of `alloc` over the chunks that there are.
unfoldable pub search : Option ℕ → ℕ → Chunks → Option (Block × Chunks)
search device size [] = none
search device size ((id, cb) ∷ rest) =
    let later = search device size rest in
    if same_device cb.device_idx device
    then cut_from size id cb rest later (buffer_alloc cb size)
    else keep_chunk id cb later

-- `ChunkDescriptor(chunk_id=cb.chunk_id, …)`
abbrev pub desc_of : ChunkBuffer → ChunkDescriptor
desc_of cb = record { chunk_id = cb.chunk_id; base_gpa = cb.base_gpa; user_size = cb.total_size }
