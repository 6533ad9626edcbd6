-- ===== src/Allocator/Alloc.antt =====
-- What `ChunkBuffer.alloc` does to the free bytes.
use ummwith_client.Prelude.{
  ℕ, suc, ◌+◌, ◌≤◌, ◌<◌, ◌≡◌, refl, List, [], ◌∷◌, arith, leb, Option, none, some, All, Bool-cases,
  inl, inr, ◌==◌,
}
use ummwith_client.Allocator.ChunkBuffer.{Range, ChunkBuffer, first_fit, buffer_alloc, keep_range}
use ummwith_client.Allocator.Canonical.{byte_of, covers, IsCanonical, IsCanonical-weaken}

-- What a successful search leaves: the same bytes but for the range that was handed out.
abbrev pub Taken : ℕ → ℕ → ℕ → List Range → Option (ℕ × List Range) → Type 0
Taken size low end rs none = All (λ (r : Range). r.1 < size) rs
Taken size low end rs (some (offset, rest)) =
    IsCanonical low end rest
    × (low ≤ offset)
    × (offset + size ≤ end)
    × ((b : ℕ) → covers rs b ≡ byte_of (offset, size) b + covers rest b)

first_fit-Taken :
    (size low end : ℕ) (rs : List Range)
    → IsCanonical low end rs
    → Taken size low end rs (first_fit size rs)
unfolding first_fit covers
first_fit-Taken size low end [] c = tt
first_fit-Taken size low end ((offset, free_size) ∷ rest) c =
    elim (Bool-cases (leb size free_size)) [
      | inr small ↦ rw small (
          later (ground arith) (first_fit size rest)
            (first_fit-Taken size (suc (offset + free_size)) end rest c.3))
      | inl large ↦ elim (Bool-cases (free_size == size)) [
        | inl exact ↦
            rw (large, exact)
              (
                IsCanonical-weaken (suc (offset + free_size)) low end rest (omega arith) c.3,
                c.0,
                ground arith,
                λ b. ground arith,
              )
        | inr more ↦
            rw (large, more)
              (
                (
                  omega arith,
                  ground arith,
                  ground arith,
                  IsCanonical-weaken (suc (offset + free_size)) _ end rest (ground arith) c.3,
                ),
                c.0,
                ground arith,
                λ b. ground arith,
              )
      ]
    ]
  where
    later :
        free_size < size
        → (o : Option (ℕ × List Range)) → Taken size (suc (offset + free_size)) end rest o
        → Taken size low end ((offset, free_size) ∷ rest) (keep_range (offset, free_size) o)
    later small none h = (small, h)
    later small (some (at, left)) h =
        ((c.0, c.1, c.2, h.0), omega arith, h.2, λ b. omega (arith, h.3 b))

-- What `alloc` has done by its result: `none` says that every free range was too small; an offset
-- comes with a range of free bytes inside the chunk, which are no longer free, and no other byte of
-- the chunk has changed.
abbrev pub Allocated : ChunkBuffer → ℕ → Option (ℕ × ChunkBuffer) → Type 0
Allocated cb size none = All (λ (r : Range). r.1 < size) cb.free_list
Allocated cb size (some (offset, cb')) =
    IsCanonical 0 cb.total_size cb'.free_list
    × (offset + size ≤ cb.total_size)
    × ((b : ℕ) → covers cb.free_list b ≡ byte_of (offset, size) b + covers cb'.free_list b)
    × (cb'.total_size ≡ cb.total_size)

-- `alloc` hands out free bytes of the chunk and nothing else, or every free range is too small.
pub buffer_alloc-Allocated :
    (cb : ChunkBuffer) (size : ℕ)
    → IsCanonical 0 cb.total_size cb.free_list
    → Allocated cb size (buffer_alloc cb size)
unfolding buffer_alloc
buffer_alloc-Allocated cb size c =
    by_search (first_fit size cb.free_list) (first_fit-Taken size 0 cb.total_size cb.free_list c)
  where
    by_search :
        (o : Option (ℕ × List Range))
        → Taken size 0 cb.total_size cb.free_list o
        → Allocated cb size (elim o [
          | none ↦ none
          | some (offset, rest) ↦ some (offset, record cb { free_list = rest })
        ])
    by_search none h = h
    by_search (some (offset, rest)) h = (h.0, h.2, h.3, refl)
