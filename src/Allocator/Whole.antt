-- ===== src/Allocator/Whole.antt =====
-- When `is_fully_free` recognises a chunk, and when it does not.
use ummwith_client.Prelude.{
  ℕ, suc, ◌+◌, ◌<◌, ◌≡◌, ◌↔◌, List, [], ◌∷◌, arith, true, false, ◌∙◌, ap, Option, some,
}
use ummwith_client.Allocator.ChunkBuffer.{
  Range, Media, ChunkBuffer, buffer_free, is_whole, is_fully_free, new_buffer, buffer_alloc,
  first_fit,
}
use ummwith_client.Allocator.Canonical.{covers, IsCanonical, covers_below}

whole_chunk :
    (total : ℕ) (rs : List Range)
    → IsCanonical 0 total rs
    → 0 < total
    → ((b : ℕ) → b < total → covers rs b ≡ 1)
    → rs ≡ (0, total) ∷ []
unfolding covers
whole_chunk total [] c h all = absurd (omega (arith, all 0 h))
whole_chunk total ((o, s) ∷ []) c h all =
    let first : o ≡ 0 = ground (arith, all 0 h) in
    let last : s ≡ total = ground (arith, all s) in rw (first, last)
whole_chunk total (r ∷ x ∷ xs) c h all = absurd (
    ground (
      arith,
      all (r.0 + r.1) (omega arith),
      covers_below (suc (r.0 + r.1)) total (r.0 + r.1) (x ∷ xs) c.3 (omega arith),
    ))

is_whole-covers :
    (total b : ℕ) (rs : List Range) → is_whole total rs ≡ true → b < total → covers rs b ≡ 1
unfolding covers
is_whole-covers total b [] e h = cc
is_whole-covers total b (r ∷ []) e h = ground arith
is_whole-covers total b (r ∷ x ∷ xs) e h = cc

-- A chunk is recognised as fully free exactly when each of its bytes is free.
pub is_fully_free_lem :
    (cb : ChunkBuffer)
    → IsCanonical 0 cb.total_size cb.free_list
    → 0 < cb.total_size
    → (is_fully_free cb ≡ true) ↔ ((b : ℕ) → b < cb.total_size → covers cb.free_list b ≡ 1)
unfolding is_fully_free
is_fully_free_lem cb c h = (
  λ e b k. is_whole-covers cb.total_size b cb.free_list e k,
  λ all.
      ap (is_whole cb.total_size) (whole_chunk cb.total_size cb.free_list c h all) ∙ whole_itself,
)
  where
    whole_itself : is_whole cb.total_size ((0, cb.total_size) ∷ []) ≡ true
    whole_itself = ground arith

-- A block of size 0 on a new buffer: `alloc` gives it, and after its `free` the chunk is not
-- recognised as fully free, though each of its bytes is free.
pub empty_block_stays :
    (id gpa total : ℕ) (media : Media) (device : Option ℕ)
    → 0 < total
    → let cb = new_buffer id gpa total media device in
      (buffer_alloc cb 0 ≡ some (0, cb))
      × (is_fully_free (buffer_free cb 0 0) ≡ false)
      × ((b : ℕ) → b < total → covers (buffer_free cb 0 0).free_list b ≡ 1)
unfolding is_fully_free buffer_free buffer_alloc first_fit covers
empty_block_stays id gpa total media device h = (ground arith, ground arith, λ b k. ground arith)
