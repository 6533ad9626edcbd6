-- ===== src/Allocator/FineGrained.antt =====
-- `FineGrainedAllocator` of bmpclient/allocator.py, over `UMMServiceClient` of bmpclient/client.py.
-- The lock makes each method one step. Sizes are natural numbers.
use ummwith_client.Prelude.{
  ℕ, zero, suc, ◌+◌, ◌-◌, max, true, false, Option, none, some, [], ◌∷◌, Result, ok, err,
  value_error, runtime_error, exhausted, index_error, key_error, type_error, timeout_error,
  segment_full, struct_error, attribute_error, overflow_error, memory_error, raise_if, ltb,
  if◌then◌else◌, length,
}
use ummwith_client.Prelude.Action.{Action, lift, pure, gets, modify, ◌>>=◌, ◌>>◌}
use ummwith_client.Prelude.Int.{ℤ, pos, negsuc}
use ummwith_client.Umm.{Bytes, ChunkDescriptor, UmmLib}
use ummwith_client.Allocator.ChunkBuffer.{
  Media, dram, ssd, ChunkBuffer, new_buffer, buffer_alloc, buffer_free, is_fully_free,
}
use ummwith_client.Allocator.Table.{
  Block, Chunks, Allocator, chunks_of, with_chunks, find, put, remove, check_media, block_of,
  search, desc_of,
}

-- `except RuntimeError as e: raise MemoryExhaustedError(…)`
abbrev pub as_exhausted : {A : Type 0} → Result A → Result A
as_exhausted (ok a) = ok a
as_exhausted (err value_error) = err value_error
as_exhausted (err index_error) = err index_error
as_exhausted (err key_error) = err key_error
as_exhausted (err type_error) = err type_error
as_exhausted (err runtime_error) = err exhausted
as_exhausted (err timeout_error) = err timeout_error
as_exhausted (err segment_full) = err exhausted
as_exhausted (err exhausted) = err exhausted
as_exhausted (err struct_error) = err struct_error
as_exhausted (err attribute_error) = err attribute_error
as_exhausted (err overflow_error) = err overflow_error
as_exhausted (err memory_error) = err memory_error

-- `ChunkDescriptor(chunk_id=block.chunk_id, …)`
abbrev pub block_desc : Block → ChunkDescriptor
block_desc block = record {
  chunk_id = block.chunk_id;
  base_gpa = block.gpa;
  user_size = block.chunk_size;
}

-- The checks of `read`; offset and length of the read inside the block.
unfoldable pub read_range : ℕ → ℤ → Option ℤ → Result (ℕ × ℕ)
read_range total (negsuc o) size = err value_error
read_range total (pos o) none = if ltb total o then err value_error else ok (o, total - o)
read_range total (pos o) (some (negsuc n)) = err value_error
read_range total (pos o) (some (pos n)) = if ltb total (o + n) then err value_error else ok (o, n)

module _ (lib : UmmLib) where
  open lib use {Dev}

  abbrev pub State : Type 0
  State = Allocator × Dev

  -- A call of the library: the allocator stays as it is.
  abbrev pub call : {A : Type 0} → Action Dev A → Action State A
  call m (a, dev) = let (r, dev') = m dev in (r, (a, dev'))

  -- `UMMServiceClient.create_chunk`
  unfoldable pub create_chunk : ℕ → Media → Option ℕ → Action Dev ChunkDescriptor
  create_chunk size ssd (some d) = lib.alloc_on_device size d
  create_chunk size ssd none = lib.alloc_tiered size
  create_chunk size dram (some d) = lift (err value_error)
  create_chunk size dram none = lib.alloc size

  -- `create_chunk` with its `RuntimeError` translated.
  abbrev pub obtain : ℕ → Media → Option ℕ → Action State ChunkDescriptor
  obtain size media device (a, dev) =
      let (r, dev') = create_chunk size media device dev in (as_exhausted r, (a, dev'))

  abbrev pub fresh : ChunkDescriptor → Media → Option ℕ → ChunkBuffer
  fresh desc media device = new_buffer desc.chunk_id desc.base_gpa desc.user_size media device

  abbrev pub store : Media → ℕ → ChunkBuffer → Action State (Unit {0})
  store media id cb = modify (λ s. (with_chunks media (put id cb (chunks_of media s.0)) s.0, s.1))

  -- Cut the block from the new chunk, or give the chunk back.
  abbrev pub cut_new :
      Media → ℕ → ChunkDescriptor → ChunkBuffer → Option (ℕ × ChunkBuffer) → Action State Block
  cut_new media size desc cb none = call (lib.free desc) >> lift (err exhausted)
  cut_new media size desc cb (some (offset, cb')) = do
    store media desc.chunk_id cb'
    pure (block_of desc.chunk_id offset size cb)

  -- The second part of `alloc`: a new chunk.
  unfoldable pub alloc_new : Media → ℕ → Option ℕ → Action State Block
  unfolding create_chunk
  alloc_new media size device = do
    a ← gets (λ s. s.0)
    desc ← obtain (max size a.default_chunk_size) media device
    let cb = fresh desc media device
    cut_new media size desc cb (buffer_alloc cb size)

  abbrev pub serve : Media → ℕ → Option ℕ → Option (Block × Chunks) → Action State Block
  serve media size device none s = alloc_new media size device s
  serve media size device (some (block, cs)) (a, dev) = (ok block, (with_chunks media cs a, dev))

  -- `alloc`
  unfoldable pub alloc : ℕ → Option Media → Option ℕ → Action State Block
  alloc size media_type device = do
    media ← lift (check_media media_type device)
    a ← gets (λ s. s.0)
    serve media size device (search device size (chunks_of media a))

  -- `delete_chunk`, then `del chunks[id]`
  unfoldable pub give_back : Media → ℕ → ChunkBuffer → Action State (Unit {0})
  give_back media id cb =
      call (lib.free (desc_of cb))
      >> modify (λ s. (with_chunks media (remove id (chunks_of media s.0)) s.0, s.1))

  -- The part of `free` on the buffer that holds the block.
  unfoldable pub free_in : Media → Block → ChunkBuffer → Action State (Unit {0})
  unfolding give_back
  free_in media block cb = do
    let cb' = buffer_free cb block.offset block.size
    store media block.chunk_id cb'
    elim (is_fully_free cb') [ false ↦ pure tt | true ↦ give_back media block.chunk_id cb' ]

  abbrev pub free_found :
      Media → Block → Option ChunkBuffer → Action State (Unit {0}) → Action State (Unit {0})
  free_found media block none otherwise = otherwise
  free_found media block (some cb) otherwise = free_in media block cb

  -- `free`: the first of the two tables that knows the chunk.
  unfoldable pub free : Block → Action State (Unit {0})
  free block = do
    a ← gets (λ s. s.0)
    free_found dram block (find block.chunk_id a.dram_chunks)
        (free_found ssd block (find block.chunk_id a.ssd_chunks) (pure tt))

  unfoldable pub preallocate_loop : ℕ → ℕ → Media → Option ℕ → Action State (Unit {0})
  preallocate_loop zero size media device = pure tt
  preallocate_loop (suc count) size media device = do
    desc ← obtain size media device
    store media desc.chunk_id (fresh desc media device)
    preallocate_loop count size media device

  -- `preallocate_chunks`
  unfoldable pub preallocate_chunks : ℕ → ℕ → Option Media → Option ℕ → Action State (Unit {0})
  preallocate_chunks count size media_type device = do
    media ← lift (check_media media_type device)
    preallocate_loop count size media device

  -- `read`, without `size` up to the end of the block.
  unfoldable pub read : Block → ℤ → Option ℤ → Action State Bytes
  read block offset size = do
    (o, n) ← lift (read_range block.size offset size)
    call (lib.read (block_desc block) (block.offset + o) n)

  -- `write`: an empty write does nothing, whatever its offset.
  unfoldable pub write : Block → ℤ → Bytes → Action State (Unit {0})
  write block (negsuc o) bytes = lift (err value_error)
  write block (pos o) [] = pure tt
  write block (pos o) (b ∷ bytes) = do
    lift (raise_if (ltb block.size (o + length (b ∷ bytes))) value_error)
    call (lib.write (block_desc block) (block.offset + o) (b ∷ bytes))

  unfoldable pub delete_all : Chunks → Action State (Unit {0})
  delete_all [] = pure tt
  delete_all ((id, cb) ∷ rest) = call (lib.free (desc_of cb)) >> delete_all rest

  -- One round of the loop of `close`.
  unfoldable pub close_media : Media → Action State (Unit {0})
  close_media media = do
    a ← gets (λ s. s.0)
    delete_all (chunks_of media a)
    modify (λ s. (with_chunks media [] s.0, s.1))

  -- `close`
  unfoldable pub close : Action State (Unit {0})
  close = close_media dram >> close_media ssd >> call lib.deinit
