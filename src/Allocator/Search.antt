-- ===== src/Allocator/Search.antt =====
-- The search of `FineGrainedAllocator.alloc` in the chunks that there are.
use ummwith_client.Prelude.{
  ℕ, ◌<◌, ◌≡◌, ◌≢◌, refl, List, [], ◌∷◌, arith, Option, some, none, All, sym, subst, true,
  Bool-cases, inl, inr,
}
use ummwith_client.Allocator.ChunkBuffer.{Range, ChunkBuffer, buffer_alloc}
use ummwith_client.Allocator.Canonical.{IsCanonical}
use ummwith_client.Allocator.Alloc.{Allocated, buffer_alloc-Allocated}
use ummwith_client.Allocator.Table.{
  Block, Chunks, same_device, block_of, keep_chunk, cut_from, search,
}
use ummwith_client.Allocator.Held.{
  held-same, held-other, Own, Own-held, Absent, IsTable, IsTable-held,
}

-- Each free range of the device's chunks is too small.
abbrev pub TooSmall : Option ℕ → ℕ → Chunks → Type 0
TooSmall device size cs =
    All
      (λ (e : ℕ × ChunkBuffer).
        same_device e.1.device_idx device ≡ true → All (λ (r : Range). r.1 < size) e.1.free_list)
      cs

module _ (live : List Block) (device : Option ℕ) (size : ℕ) where
  -- What the search has done by its result: `none` says that each free range of the device's chunks
  -- is too small; a block comes with a table that accounts for it and for the live blocks, with the
  -- keys that it had, the block's chunk among them.
  abbrev pub Found : Chunks → Option (Block × Chunks) → Type 0
  Found cs none = TooSmall device size cs
  Found cs (some (block, cs')) =
      IsTable (block ∷ live) cs'
      × (block.size ≡ size)
      × ((k : ℕ) → Absent k cs → Absent k cs' × (block.chunk_id ≢ k))
      × ((k : ℕ) → Absent k cs' → Absent k cs)

  module _ (id : ℕ) (cb : ChunkBuffer) (rest : Chunks) (o : Own live id cb) (a : Absent id rest)
      (t : IsTable live rest) where
    keep-Found :
        (later : Option (Block × Chunks))
        → (same_device cb.device_idx device ≡ true → All (λ (r : Range). r.1 < size) cb.free_list)
        → Found rest later
        → Found ((id, cb) ∷ rest) (keep_chunk id cb later)
    keep-Found none h f = (h, f)
    keep-Found (some (block, rest')) h f =
        let (absent, other) = f.2 id a in
        (
          (Own-held (λ b. sym (held-other block live id b other)) o, absent, f.0),
          f.1,
          λ k q. ((q.0, (f.2 k q.1).0), (f.2 k q.1).1),
          λ k q. (q.0, f.3 k q.1),
        )

    cut_from-Found :
        (later : Option (Block × Chunks)) (r : Option (ℕ × ChunkBuffer))
        → Allocated cb size r
        → 0 < size
        → Found rest later
        → Found ((id, cb) ∷ rest) (cut_from size id cb rest later r)
    cut_from-Found later none h p f = keep-Found later (λ _. h) f
    cut_from-Found later (some (offset, cb')) (canonical, fits, bytes, total) p f = (
      (
        own,
        a,
        IsTable-held live (block ∷ live) rest id
            (λ k b h. sym (held-other block live k b (λ e. h (sym e)))) a t,
      ),
      refl,
      λ k q. (q, q.0),
      λ k q. q,
    )
      where
        block : Block
        block = block_of id offset size cb

        own : Own (block ∷ live) id cb'
        own = record {
          some_bytes = omega (arith, o.some_bytes);
          canonical = subst (λ n. IsCanonical 0 n cb'.free_list) (sym total) canonical;
          once = λ b h. omega (arith, held-same block live b, bytes b, o.once b (omega arith));
          inside = λ b h. ground (arith, held-same block live b, o.inside b (omega arith));
        }

  -- On a table that accounts for the live blocks, the search for a positive size finds a block of
  -- that size that no live block overlaps, or each free range of the device's chunks is too small.
  pub search-Found : (cs : Chunks) → 0 < size → IsTable live cs → Found cs (search device size cs)
  unfolding search
  search-Found [] p t = tt
  search-Found ((id, cb) ∷ rest) p t = elim (Bool-cases (same_device cb.device_idx device)) [
    | inl same ↦ rw same (
        cut_from-Found id cb rest t.0 t.1 t.2 (search device size rest) (buffer_alloc cb size)
          (buffer_alloc-Allocated cb size t.0.canonical) p (search-Found rest p t.2))
    | inr other ↦ rw other (
        keep-Found id cb rest t.0 t.1 t.2 (search device size rest) (λ e. absurd (cc))
          (search-Found rest p t.2))
  ]
