-- ===== src/Allocator/Blocks.antt =====
-- `alloc` of `FineGrainedAllocator` keeps the accounts of its two tables.
use ummwith_client.Prelude.{
  ℕ, ◌≤◌, ◌<◌, ◌≡◌, ◌≢◌, refl, List, [], ◌∷◌, arith, Option, some, none, ap, sym, subst, inl, inr,
  ◌⊎◌, Result, ok, err, max, Error, value_error, index_error, key_error, type_error, runtime_error,
  timeout_error, segment_full, struct_error, attribute_error, overflow_error, memory_error,
  exhausted,
}
use ummwith_client.Umm.{ChunkDescriptor, UmmLib}
use ummwith_client.Allocator.ChunkBuffer.{Media, dram, ssd, ChunkBuffer, buffer_alloc}
use ummwith_client.Allocator.Alloc.{Allocated, buffer_alloc-Allocated}
use ummwith_client.Allocator.Canonical.{byte_of, covers, IsCanonical}
use ummwith_client.Allocator.Table.{Block, Chunks, Allocator, chunks_of, put, search, check_media}
use ummwith_client.Allocator.FineGrained.{
  State, create_chunk, as_exhausted, fresh, cut_new, alloc_new, serve, alloc,
}
use ummwith_client.Allocator.Held.{held, held-same, held-other, Own, Absent}
use ummwith_client.Allocator.Search.{TooSmall, Found, search-Found}
use ummwith_client.Allocator.Tables.{put-Absent, Absent-put, put-IsTable}
use ummwith_client.Allocator.Sound.{IsSound, other, with_chunks-IsSound, away_from}

as_exhausted-err :
    (e : Error) → (e' : Error) × (as_exhausted {A = ChunkDescriptor} (err e) ≡ err e')
as_exhausted-err value_error = (value_error, refl)
as_exhausted-err index_error = (index_error, refl)
as_exhausted-err key_error = (key_error, refl)
as_exhausted-err type_error = (type_error, refl)
as_exhausted-err runtime_error = (exhausted, refl)
as_exhausted-err timeout_error = (timeout_error, refl)
as_exhausted-err segment_full = (exhausted, refl)
as_exhausted-err exhausted = (exhausted, refl)
as_exhausted-err struct_error = (struct_error, refl)
as_exhausted-err attribute_error = (attribute_error, refl)
as_exhausted-err overflow_error = (overflow_error, refl)
as_exhausted-err memory_error = (memory_error, refl)

module _ (lib : UmmLib) (live : List Block) (size : ℕ) where
  -- Why `alloc` raises: it refuses the medium and the device, or each free range of the device's
  -- chunks is too small and the library does not give a new chunk.
  abbrev pub Unserved : Allocator → lib.Dev → Option Media → Option ℕ → Error → Type 0
  Unserved a dev media_type device e =
      (check_media media_type device ≡ err e)
      ⊎ ((media : Media) × (media_type ≡ some media)
          × TooSmall device size (chunks_of media a)
          × ((why : Error) × ((create_chunk lib (max size a.default_chunk_size) media device dev).0
                ≡ err why)
              × (as_exhausted {A = ChunkDescriptor} (err why) ≡ err e)))

  -- After `alloc` of `size` bytes: sound with the new block, or with the old ones if it raised, for
  -- the cause `C`.
  abbrev pub Served : (Error → Type 0) → Result Block × State lib → Type 0
  Served C (ok block, (a, dev)) = IsSound (block ∷ live) a × (block.size ≡ size)
  Served C (err e, (a, dev)) = IsSound live a × C e

  -- A chunk that the library hands out is none of those in use, and as large as demanded.
  abbrev pub IsNew : Allocator → ℕ → ChunkDescriptor → Type 0
  IsNew a wanted desc =
      ((m : Media) → Absent desc.chunk_id (chunks_of m a)) × (wanted ≤ desc.user_size)

  module _ (a : Allocator) (s : IsSound live a) (positive : 0 < size) (media : Media)
      (device : Option ℕ) where
    open lib use {Dev}

    cut_new-Served :
        (C : Error → Type 0) (desc : ChunkDescriptor) (dev : Dev) (r : Option (ℕ × ChunkBuffer))
        → IsNew a size desc
        → Allocated (fresh lib desc media device) size r
        → Served C (cut_new lib media size desc (fresh lib desc media device) r (a, dev))
    cut_new-Served C desc dev none (new, big) al = absurd (omega (arith, al.0))
    cut_new-Served C desc dev (some (offset, cb')) (new, big) (canonical, fits, bytes, total) = (
      with_chunks-IsSound live (block ∷ live) a media (put id cb' (chunks_of media a)) id s
          other_chunk
          (put-IsTable live (block ∷ live) id other_chunk cb' (chunks_of media a) own
            (s.tables media))
          (new (other media)) (λ k n q. put-Absent k id cb' (chunks_of media a) (λ e. n (sym e)) q)
          (λ k n q. (Absent-put k id cb' (chunks_of media a) q).0)
          (λ b q. absurd ((Absent-put id id cb' (chunks_of media a) q).1 refl)),
      refl,
    )
      where
        id : ℕ
        id = desc.chunk_id

        block : Block
        block = record {
          chunk_id = id;
          offset = offset;
          size = size;
          gpa = desc.base_gpa;
          chunk_size = desc.user_size;
        }

        other_chunk : (k b : ℕ) → k ≢ id → held live k b ≡ held (block ∷ live) k b
        other_chunk k b n = sym (held-other block live k b (λ e. n (sym e)))

        whole : (b : ℕ) → covers ((0, desc.user_size) ∷ []) b ≡ byte_of (0, desc.user_size) b
        whole b = unfold covers in omega arith

        own : Own (block ∷ live) id cb'
        own = record {
          some_bytes = omega arith;
          canonical = subst (λ n. IsCanonical 0 n cb'.free_list) (sym total) canonical;
          once = λ b h. ground (arith, held-same block live b, bytes b, whole b, s.housed id b new);
          inside = λ b h. ground (arith, held-same block live b, s.housed id b new);
        }

    alloc_new-made :
        (dev dev' : Dev) (desc : ChunkDescriptor)
        → create_chunk lib (max size a.default_chunk_size) media device dev ≡ (ok desc, dev')
        → alloc_new lib media size device (a, dev)
          ≡ cut_new lib media size desc
              (fresh lib desc media device)
              (buffer_alloc (fresh lib desc media device) size)
              (a, dev')
    unfolding alloc_new
    alloc_new-made dev dev' desc e = rw e refl

    alloc_new-refused :
        (dev dev' : Dev) (e : Error)
        → create_chunk lib (max size a.default_chunk_size) media device dev ≡ (err e, dev')
        → (e' : Error) × (alloc_new lib media size device (a, dev) ≡ (err e', (a, dev')))
          × (as_exhausted {A = ChunkDescriptor} (err e) ≡ err e')
    unfolding alloc_new
    alloc_new-refused dev dev' e h = let (e', f) = as_exhausted-err e in (e', rw h (rw f refl), f)

    serve-Served :
        (dev : Dev)
        → ((desc : ChunkDescriptor) (dev' : Dev)
            → create_chunk lib (max size a.default_chunk_size) media device dev ≡ (ok desc, dev')
            → IsNew a (max size a.default_chunk_size) desc)
        → (o : Option (Block × Chunks)) → Found live device size (chunks_of media a) o
        → Served (Unserved a dev (some media) device) (serve lib media size device o (a, dev))
    serve-Served dev issued none f =
        by_library (create_chunk lib (max size a.default_chunk_size) media device dev) refl
      where
        by_library :
            (r : Result ChunkDescriptor × Dev)
            → create_chunk lib (max size a.default_chunk_size) media device dev ≡ r
            → Served (Unserved a dev (some media) device) (alloc_new lib media size device (a, dev))
        by_library (ok desc, dev') e =
            let (new, big) = issued desc dev' e in
            let cb = fresh lib desc media device in
            let fits : size ≤ desc.user_size = omega arith in
            subst (Served (Unserved a dev (some media) device))
              (sym (alloc_new-made dev dev' desc e))
              (cut_new-Served (Unserved a dev (some media) device) desc dev' (buffer_alloc cb size)
                (new, fits)
                (buffer_alloc-Allocated cb size (omega arith, omega arith, omega arith, tt)))
        by_library (err why, dev') e =
            let (why', h, same) = alloc_new-refused dev dev' why e in
            subst (Served (Unserved a dev (some media) device)) (sym h)
              (s, inr (media, refl, f, (why, ap (λ r. r.0) e, same)))
    serve-Served dev issued (some (block, cs)) (t, sized, keys, back) = (
      with_chunks-IsSound live (block ∷ live) a media cs block.chunk_id s
          (λ k b n. sym (held-other block live k b (λ e. n (sym e)))) t
          (away_from live a s media block.chunk_id (λ q. (keys block.chunk_id q).1 refl))
          (λ k n q. (keys k q).0) (λ k n q. back k q)
          (λ b q. absurd ((keys block.chunk_id (back block.chunk_id q)).1 refl)),
      sized,
    )

  -- When a new chunk that the library hands out is not in use already and has at least the size asked
  -- for, `alloc` of a positive size keeps the tables sound: with the new block if it returns one, with the old blocks if it raises. It raises
  -- only if it refuses the medium and the device, or if each free range of the device's chunks is too
  -- small and the library raised the error, a RuntimeError as a MemoryExhaustedError.
  pub alloc-Served :
      (a : Allocator) (dev : lib.Dev) (media_type : Option Media) (device : Option ℕ)
      → IsSound live a
      → 0 < size
      → ((media : Media) (desc : ChunkDescriptor) (dev' : lib.Dev)
          → create_chunk lib (max size a.default_chunk_size) media device dev ≡ (ok desc, dev')
          → IsNew a (max size a.default_chunk_size) desc)
      → Served (Unserved a dev media_type device) (alloc lib size media_type device (a, dev))
  unfolding alloc check_media
  alloc-Served a dev none device s p issued = (s, inl refl)
  alloc-Served a dev (some dram) (some d) s p issued = (s, inl refl)
  alloc-Served a dev (some dram) none s p issued =
      serve-Served a s p dram none dev (issued dram) (search none size a.dram_chunks)
        (search-Found live none size a.dram_chunks p (s.tables dram))
  alloc-Served a dev (some ssd) device s p issued =
      serve-Served a s p ssd device dev (issued ssd) (search device size a.ssd_chunks)
        (search-Found live device size a.ssd_chunks p (s.tables ssd))
