-- ===== src/Segment/Invariant.antt =====
-- The well-formedness of a segment manager, against the list `live` of the offsets that were
-- handed out and not yet released.
use ummwith_client.Prelude.{
  ℕ, ◌+◌, ◌*◌, ◌/◌, ◌≤◌, ◌<◌, ◌≡◌, List, ltb, ◌==◌, if◌then◌else◌, ◌&&◌, not, Option, some, none,
  length, get_elem?,
}
use ummwith_client.Prelude.Int.{pos}
use ummwith_client.Umm.{Bytes}
use ummwith_client.Segment.Manager.{Manager, is_current}
use ummwith_client.Segment.Count.{occ, units_in}

-- The state of the write buffer: none is open, or it holds `fill` units of a segment, and every
-- live unit of the segment lies below the fill mark.
abbrev pub Buffered : Manager → List ℕ → Option Bytes → Option ℕ → Type 0
Buffered m live none none = m.buf_fill ≡ 0
Buffered m live none (some seg) = ⊥
Buffered m live (some buf) none = ⊥
Buffered m live (some buf) (some seg) =
    (seg < m.n_seg)
    × (length buf ≡ m.sp_bytes)
    × (m.buf_fill ≤ m.slots_per_seg)
    × ((off : ℕ)
        → 0 < occ off live
        → off / m.sp_bytes ≡ seg
        → off < seg * m.sp_bytes + m.buf_fill * m.unit_size)

-- 1 for a segment that belongs in the pool: it exists, is not being filled and has no live unit.
abbrev pub pool_share : Manager → List ℕ → ℕ → ℕ
pool_share m live seg =
    if ltb seg m.n_seg && not (is_current m seg) && units_in m.sp_bytes seg live == 0 then 1 else 0

pub record IsValid (m : Manager) (live : List ℕ) : Type 0 where
  pub unit_pos : 0 < m.unit_size
  pub slots_pos : 0 < m.slots_per_seg
  pub whole_slots : m.slots_per_seg * m.unit_size ≡ m.sp_bytes
  pub counted :
      (seg : ℕ)
      → seg < m.n_seg
      → get_elem? m.refcount seg ≡ some (pos (units_in m.sp_bytes seg live))
  pub sized : length m.refcount ≡ m.n_seg
  pub pooled : (seg : ℕ) → occ seg m.free ≡ pool_share m live seg
  pub distinct : (off : ℕ) → occ off live ≤ 1
  pub inside : (off : ℕ) → 0 < occ off live → off / m.sp_bytes < m.n_seg
  pub buffered : Buffered m live m.buf m.buf_seg
