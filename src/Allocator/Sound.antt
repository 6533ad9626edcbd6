-- ===== src/Allocator/Sound.antt =====
-- What it means that the two tables of `FineGrainedAllocator` account for its live blocks.
use ummwith_client.Prelude.{ℕ, ◌≡◌, ◌≢◌, List, sym, subst, ℕ_discrete, inl, inr, ◌⊎◌, ◌∙◌}
use ummwith_client.Allocator.ChunkBuffer.{Media, dram, ssd}
use ummwith_client.Allocator.Table.{Block, Chunks, Allocator, chunks_of, with_chunks}
use ummwith_client.Allocator.Held.{held, Absent, IsTable, IsTable-held}

-- Both tables account for the live blocks, no chunk is in both, and a chunk in neither has no block.
pub record IsSound (live : List Block) (a : Allocator) : Type 0 where
  pub tables : (m : Media) → IsTable live (chunks_of m a)
  pub apart : (k : ℕ) → Absent k a.dram_chunks ⊎ Absent k a.ssd_chunks
  pub housed : (k b : ℕ) → ((m : Media) → Absent k (chunks_of m a)) → held live k b ≡ 0

pub by_media : (P : Media → Type 0) → P dram → P ssd → (m : Media) → P m
by_media P d s dram = d
by_media P d s ssd = s

abbrev pub other : Media → Media
other dram = ssd
other ssd = dram

-- Soundness after a change of one table: `id` is the chunk whose blocks changed.
pub with_chunks-IsSound :
    (live live' : List Block) (a : Allocator) (media : Media) (cs : Chunks) (id : ℕ)
    → IsSound live a
    → ((k b : ℕ) → k ≢ id → held live k b ≡ held live' k b)
    → IsTable live' cs
    → Absent id (chunks_of (other media) a)
    → ((k : ℕ) → k ≢ id → Absent k (chunks_of media a) → Absent k cs)
    → ((k : ℕ) → k ≢ id → Absent k cs → Absent k (chunks_of media a))
    → ((b : ℕ) → Absent id cs → held live' id b ≡ 0)
    → IsSound live' (with_chunks media cs a)
with_chunks-IsSound live live' a dram cs id s same t away fewer more gone = record {
  tables =
      by_media (λ m. IsTable live' (chunks_of m (with_chunks dram cs a))) t
        (IsTable-held live live' a.ssd_chunks id same away (s.tables ssd));
  apart = λ k. elim (ℕ_discrete k id) [
    | yes e ↦ inr (subst (λ n. Absent n a.ssd_chunks) (sym e) away)
    | no n ↦ elim (s.apart k) [ inl q ↦ inl (fewer k n q) | inr q ↦ inr q ]
  ];
  housed = λ k b q. elim (ℕ_discrete k id) [
    | yes e ↦ subst (λ n. held live' n b ≡ 0) (sym e) (gone b (subst (λ n. Absent n cs) e (q dram)))
    | no n ↦
        sym (same k b n)
        ∙ s.housed k b (by_media (λ m. Absent k (chunks_of m a)) (more k n (q dram)) (q ssd))
  ];
}
with_chunks-IsSound live live' a ssd cs id s same t away fewer more gone = record {
  tables =
      by_media (λ m. IsTable live' (chunks_of m (with_chunks ssd cs a)))
        (IsTable-held live live' a.dram_chunks id same away (s.tables dram)) t;
  apart = λ k. elim (ℕ_discrete k id) [
    | yes e ↦ inl (subst (λ n. Absent n a.dram_chunks) (sym e) away)
    | no n ↦ elim (s.apart k) [ inl q ↦ inl q | inr q ↦ inr (fewer k n q) ]
  ];
  housed = λ k b q. elim (ℕ_discrete k id) [
    | yes e ↦ subst (λ n. held live' n b ≡ 0) (sym e) (gone b (subst (λ n. Absent n cs) e (q ssd)))
    | no n ↦
        sym (same k b n)
        ∙ s.housed k b (by_media (λ m. Absent k (chunks_of m a)) (q dram) (more k n (q ssd)))
  ];
}

module _ (live : List Block) (a : Allocator) (s : IsSound live a) where
  -- A chunk of one table is not in the other.
  pub away_from :
      (media : Media) (id : ℕ)
      → (Absent id (chunks_of media a) → ⊥)
      → Absent id (chunks_of (other media) a)
  away_from dram id present = elim (s.apart id) [ inl q ↦ absurd (present q) | inr q ↦ q ]
  away_from ssd id present = elim (s.apart id) [ inr q ↦ absurd (present q) | inl q ↦ q ]
