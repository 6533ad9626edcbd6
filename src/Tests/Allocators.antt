-- ===== src/Tests/Allocators.antt =====
-- Runs and instances for the chunk buffers.
use ummwith_client.Prelude.{
  ℕ, max, inl, ok, subst, ◌+◌, ◌<◌, ◌≡◌, refl, arith, none, some, [], ◌∷◌, false, ◌≤◌,
}
use ummwith_client.Allocator.ChunkBuffer.{
  ChunkBuffer, Media, dram, ssd, new_buffer, buffer_alloc, first_fit, buffer_free, sort,
  insert_sorted, merge_from, is_fully_free,
}
use ummwith_client.Umm.{ChunkDescriptor}
use ummwith_client.Allocator.Table.{Block, Allocator, chunks_of, check_media, search, put}
use ummwith_client.Allocator.FineGrained.{create_chunk, alloc_new, alloc, free}
use ummwith_client.Allocator.Held.{held, Absent, IsTable}
use ummwith_client.Allocator.Blocks.{Served, Unserved, IsNew, alloc-Served}
use ummwith_client.Allocator.Sound.{IsSound, by_media}
use ummwith_client.Allocator.Giveback.{Freed, free-IsSound}
use ummwith_client.Tests.Segments.{willing}
use ummwith_client.Allocator.Canonical.{byte_of, covers, IsCanonical}
use ummwith_client.Allocator.Alloc.{Allocated, buffer_alloc-Allocated}
use ummwith_client.Allocator.Free.{buffer_free-IsCanonical}
use ummwith_client.Allocator.Whole.{empty_block_stays}

abbrev whole : ChunkBuffer
whole = new_buffer 1 4096 100 ssd (some 0)

-- Free ranges around the block [20, 50).
abbrev used : ChunkBuffer
used = record whole { free_list = (0, 20) ∷ (50, 50) ∷ [] }

alloc_run : buffer_alloc whole 30 ≡ some (0, record whole { free_list = (30, 70) ∷ [] })
unfolding buffer_alloc first_fit
alloc_run = refl

second_fits : buffer_alloc used 30 ≡ some (50, record used { free_list = (0, 20) ∷ (80, 20) ∷ [] })
unfolding buffer_alloc first_fit
second_fits = refl

free_joins_both : buffer_free used 20 30 ≡ whole
unfolding buffer_free sort insert_sorted merge_from
free_joins_both = refl

used-IsCanonical : IsCanonical 0 100 used.free_list
used-IsCanonical =
    (omega arith, omega arith, omega arith, (omega arith, omega arith, omega arith, tt))

buffer_alloc-Allocated_example : Allocated used 30 (buffer_alloc used 30)
buffer_alloc-Allocated_example = buffer_alloc-Allocated used 30 used-IsCanonical

buffer_free-IsCanonical_example :
    IsCanonical 0 100 (buffer_free used 20 30).free_list
    × ((b : ℕ)
        → covers (buffer_free used 20 30).free_list b
          ≡ byte_of (20, 30) b + covers ((0, 20) ∷ (50, 50) ∷ []) b)
unfolding covers
buffer_free-IsCanonical_example =
    buffer_free-IsCanonical used 20 30 used-IsCanonical (omega arith) (omega arith) in_use
  where
    in_use : (b : ℕ) → 20 ≤ b → b < 50 → covers ((0, 20) ∷ (50, 50) ∷ []) b ≡ 0
    in_use b p q = ground arith

empty_block_stays_example :
    let cb = new_buffer 1 4096 100 dram none in
    (buffer_alloc cb 0 ≡ some (0, cb))
    × (is_fully_free (buffer_free cb 0 0) ≡ false)
    × ((b : ℕ) → b < 100 → covers (buffer_free cb 0 0).free_list b ≡ 1)
empty_block_stays_example = empty_block_stays 1 4096 100 dram none (omega arith)

abbrev empty_allocator : Allocator
empty_allocator = record { default_chunk_size = 100; dram_chunks = []; ssd_chunks = [] }

empty-IsSound : IsSound [] empty_allocator
unfolding held
empty-IsSound = record {
  tables = by_media (λ m. IsTable [] (chunks_of m empty_allocator)) tt tt;
  apart = λ k. inl tt;
  housed = λ k b q. refl;
}

-- A table with one chunk of 100 bytes whose first 30 are handed out.
abbrev one_block : Allocator
one_block = record empty_allocator {
  dram_chunks = (7, record (new_buffer 7 0 100 dram none) { free_list = (30, 70) ∷ [] }) ∷ [];
}

abbrev first_block : Block
first_block = record { chunk_id = 7; offset = 0; size = 30; gpa = 0; chunk_size = 100 }

new_chunk_run :
    alloc willing 30 (some dram) none (empty_allocator, 7) ≡ (ok first_block, (one_block, 8))
unfolding alloc check_media search alloc_new create_chunk buffer_alloc first_fit put
new_chunk_run = refl

-- What `willing` hands out is new to an allocator without chunks.
issued :
    (media : Media) (desc : ChunkDescriptor) (dev : ℕ)
    → create_chunk willing (max 30 100) media none 7 ≡ (ok desc, dev)
    → IsNew willing [] 30 empty_allocator (max 30 100) desc
unfolding create_chunk
issued dram desc dev e =
    (by_media (λ m. Absent desc.chunk_id (chunks_of m empty_allocator)) tt tt, ground arith)
issued ssd desc dev e =
    (by_media (λ m. Absent desc.chunk_id (chunks_of m empty_allocator)) tt tt, ground arith)

alloc-Served_example :
    Served willing [] 30
      (Unserved willing [] 30 empty_allocator 7 (some dram) none)
      (alloc willing 30 (some dram) none (empty_allocator, 7))
alloc-Served_example =
    alloc-Served willing [] 30 empty_allocator 7 (some dram) none empty-IsSound (omega arith) issued

one_block-IsSound : IsSound (first_block ∷ []) one_block
one_block-IsSound =
    (subst (Served willing [] 30 (Unserved willing [] 30 empty_allocator 7 (some dram) none))
      new_chunk_run alloc-Served_example).0

free-IsSound_example : Freed willing first_block [] (free willing first_block (one_block, 8))
free-IsSound_example =
    free-IsSound willing first_block [] one_block 8 one_block-IsSound (omega arith)
