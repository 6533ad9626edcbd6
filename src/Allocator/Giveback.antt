-- ===== src/Allocator/Giveback.antt =====
-- `FineGrainedAllocator.free` keeps the accounts of the two tables, also if the library refuses to
-- take the chunk back.
use ummwith_client.Prelude.{
  ℕ, ◌<◌, ◌≡◌, ◌≢◌, refl, ap, List, ◌∷◌, arith, some, none, sym, subst, Bool-cases, inl, inr, ◌∙◌,
  Result, ok, err,
}
use ummwith_client.Prelude.Action.{continue}
use ummwith_client.Umm.{ChunkDescriptor, UmmLib}
use ummwith_client.Allocator.ChunkBuffer.{Media, dram, ssd, ChunkBuffer, buffer_free, is_fully_free}
use ummwith_client.Allocator.Table.{
  Block, Chunks, Allocator, chunks_of, with_chunks, find, put, remove, desc_of,
}
use ummwith_client.Allocator.FineGrained.{State, free, free_in, give_back}
use ummwith_client.Allocator.Held.{held, held-same, held-other, Own, Absent, find-Absent}
use ummwith_client.Allocator.Tables.{
  find-cases, put-Absent, Absent-put, remove-Absent, Absent-remove, put-IsTable, remove-IsTable,
  buffer_free-Own, fully_free-held,
}
use ummwith_client.Allocator.Sound.{IsSound, by_media, other, away_from, with_chunks-IsSound}

chunks_of-with_chunks :
    (m : Media) (cs : Chunks) (a : Allocator) → chunks_of m (with_chunks m cs a) ≡ cs
chunks_of-with_chunks dram cs a = refl
chunks_of-with_chunks ssd cs a = refl

chunks_of-other :
    (m : Media) (cs : Chunks) (a : Allocator)
    → chunks_of (other m) (with_chunks m cs a) ≡ chunks_of (other m) a
chunks_of-other dram cs a = refl
chunks_of-other ssd cs a = refl

module _ (lib : UmmLib) (block : Block) (live : List Block) where
  open lib use {Dev}

  -- After a `free`: sound with the other live blocks; if it raised, then the library raised the error
  -- when a chunk was given back.
  abbrev pub Freed : Result (Unit {0}) × State lib → Type 0
  Freed (ok _, (a, dev)) = IsSound live a
  Freed (err e, (a, dev)) =
      IsSound live a
      × ((desc : ChunkDescriptor) × (before : Dev) × ((lib.free desc before).0 ≡ err e))

  give_back-Freed :
      (a : Allocator) (dev : Dev) (media : Media) (cb : ChunkBuffer)
      → IsSound live a
      → Absent block.chunk_id (chunks_of (other media) a)
      → ((b : ℕ) → held live block.chunk_id b ≡ 0)
      → Freed (give_back lib media block.chunk_id cb (a, dev))
  unfolding give_back
  give_back-Freed a dev media cb s away empty = by_result (lib.free (desc_of cb) dev) refl
    where
      left : Chunks
      left = remove block.chunk_id (chunks_of media a)

      gone : IsSound live (with_chunks media left a)
      gone =
          with_chunks-IsSound live live a media left block.chunk_id s (λ k b n. refl)
            (remove-IsTable live live block.chunk_id (λ k b n. refl) (chunks_of media a)
              (s.tables media))
            away (λ k n q. remove-Absent k block.chunk_id (chunks_of media a) q)
            (λ k n q. Absent-remove k block.chunk_id (chunks_of media a) (λ e. n (sym e)) q)
            (λ b q. empty b)

      by_result :
          (r : Result (Unit {0}) × Dev)
          → lib.free (desc_of cb) dev ≡ r
          → Freed (
              continue r.0
                (λ _ (x : State lib). (
                  ok tt,
                  (with_chunks media (remove block.chunk_id (chunks_of media x.0)) x.0, x.1),
                ))
                (a, r.1))
      by_result (ok _, dev') e = gone
      by_result (err why, dev') e = (s, (desc_of cb, dev, ap (λ x. x.0) e))

  free_in-Freed :
      (a : Allocator) (dev : Dev) (media : Media) (cb : ChunkBuffer)
      → IsSound (block ∷ live) a
      → 0 < block.size
      → find block.chunk_id (chunks_of media a) ≡ some cb
      → Own (block ∷ live) block.chunk_id cb
      → Freed (free_in lib media block cb (a, dev))
  unfolding free_in
  free_in-Freed a dev media cb s p found o = elim (Bool-cases (is_fully_free cb')) [
    | inr kept ↦ rw kept stored
    | inl whole ↦ rw whole (
        give_back-Freed a' dev media cb' stored
          (subst (Absent block.chunk_id) (sym (chunks_of-other media _ a)) away)
          (fully_free-held live block.chunk_id cb' own whole))
  ]
    where
      cb' : ChunkBuffer
      cb' = buffer_free cb block.offset block.size

      own : Own live block.chunk_id cb'
      own = buffer_free-Own block live cb p o

      others : (k b : ℕ) → k ≢ block.chunk_id → held (block ∷ live) k b ≡ held live k b
      others k b n = held-other block live k b (λ e. n (sym e))

      absurd_find : some cb ≡ none → ⊥
      absurd_find e = cc

      away : Absent block.chunk_id (chunks_of (other media) a)
      away =
          away_from (block ∷ live) a s media block.chunk_id
            (λ q. absurd_find (sym found ∙ find-Absent block.chunk_id (chunks_of media a) q))

      a' : Allocator
      a' = with_chunks media (put block.chunk_id cb' (chunks_of media a)) a

      stored : IsSound live a'
      stored =
          with_chunks-IsSound (block ∷ live) live a media
            (put block.chunk_id cb' (chunks_of media a)) block.chunk_id s others
            (put-IsTable (block ∷ live) live block.chunk_id others cb' (chunks_of media a) own
              (s.tables media))
            away (λ k n q. put-Absent k block.chunk_id cb' (chunks_of media a) (λ e. n (sym e)) q)
            (λ k n q. (Absent-put k block.chunk_id cb' (chunks_of media a) q).0)
            (λ b q.
              absurd ((Absent-put block.chunk_id block.chunk_id cb' (chunks_of media a) q).1 refl))

  -- The `free` of a live block of positive size leaves the tables sound with the other live blocks,
  -- whether it returns or raises. It raises only if the library refuses to take a chunk back.
  pub free-IsSound :
      (a : Allocator) (dev : Dev)
      → IsSound (block ∷ live) a
      → 0 < block.size
      → Freed (free lib block (a, dev))
  unfolding free
  free-IsSound a dev s p =
      elim (find-cases block.chunk_id (block ∷ live) a.dram_chunks (s.tables dram)) [
        | inr (cb, e, o) ↦ rw e (free_in-Freed a dev dram cb s p e o)
        | inl (e, no_dram) ↦
            elim (find-cases block.chunk_id (block ∷ live) a.ssd_chunks (s.tables ssd)) [
              | inr (cb, f, o) ↦ rw (e, f) (free_in-Freed a dev ssd cb s p f o)
              | inl (f, no_ssd) ↦ absurd (
                  ground (
                    arith,
                    held-same block live block.offset,
                    s.housed block.chunk_id block.offset
                        (by_media (λ m. Absent block.chunk_id (chunks_of m a)) no_dram no_ssd),
                  ))
            ]
      ]
