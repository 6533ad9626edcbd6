-- ===== src/Allocator/Canonical.antt =====
-- Free lists in canonical form: sorted, no empty range, and a gap between neighbours.
use ummwith_client.Prelude.{
  ℕ, suc, ◌+◌, ◌≤◌, ◌<◌, ◌≡◌, List, [], ◌∷◌, arith, ltb, leb, if◌then◌else◌, ◌&&◌,
}
use ummwith_client.Allocator.ChunkBuffer.{Range}

-- 1 for a byte of the range.
abbrev pub byte_of : Range → ℕ → ℕ
byte_of (offset, size) b = if leb offset b && ltb b (offset + size) then 1 else 0

-- How many ranges of the list hold the byte.
unfoldable pub covers : List Range → ℕ → ℕ
covers [] b = 0
covers (r ∷ rs) b = byte_of r b + covers rs b

-- Ranges from `low` up to `end`, in order and not overlapping.
abbrev pub IsOrdered : ℕ → ℕ → List Range → Type 0
IsOrdered low end [] = Unit
IsOrdered low end ((offset, size) ∷ rest) =
    (low ≤ offset) × (0 < size) × (offset + size ≤ end) × IsOrdered (offset + size) end rest

-- The same with a gap before each range but the first.
abbrev pub IsCanonical : ℕ → ℕ → List Range → Type 0
IsCanonical low end [] = Unit
IsCanonical low end ((offset, size) ∷ rest) =
    (low ≤ offset) × (0 < size) × (offset + size ≤ end) × IsCanonical (suc (offset + size)) end rest

pub IsCanonical-weaken :
    (low low' end : ℕ) (rs : List Range)
    → low' ≤ low
    → IsCanonical low end rs
    → IsCanonical low' end rs
IsCanonical-weaken low low' end [] h c = tt
IsCanonical-weaken low low' end (r ∷ rs) h c = (omega arith, c.1, c.2, c.3)

-- Below its lower bound a canonical list holds nothing.
pub covers_below :
    (low end b : ℕ) (rs : List Range) → IsCanonical low end rs → b < low → covers rs b ≡ 0
unfolding covers
covers_below low end b [] c h = omega arith
covers_below low end b (r ∷ rs) c h = ground (arith, covers_below (suc (r.0 + r.1)) end b rs c.3)
