-- ===== src/Segment/Geometry.antt =====
-- `check_segment_geometry` of bmpclient/_vm_segment.py.
use native.Mathlib.Nat.{div-add-mod'}
use ummwith_client.Prelude.{
  ℕ, ◌*◌, ◌/◌, ◌%◌, ◌<◌, ◌≡◌, arith, not, ◌||◌, Result, ok, value_error, raise_if, ◌>>◌, ◌==◌,
}

-- The sizes are Python ints; 0 stands for the ints that are not positive.
unfoldable pub check_segment_geometry : ℕ → ℕ → Result (Unit {0})
check_segment_geometry sp_bytes unit_size = do
  raise_if (sp_bytes == 0) value_error
  raise_if (not (sp_bytes % 4096 == 0)) value_error
  raise_if (unit_size == 0 || not (unit_size % 4096 == 0)) value_error
  raise_if (not (sp_bytes % unit_size == 0)) value_error

-- An accepted geometry is a whole, positive number of units, all of them 4 KiB aligned.
pub check_segment_geometry_lem :
    (sp unit : ℕ)
    → check_segment_geometry sp unit ≡ ok tt
    → (0 < unit) × (0 < sp / unit) × (sp / unit * unit ≡ sp) × (unit % 4096 ≡ 0) × (sp % 4096 ≡ 0)
unfolding check_segment_geometry
check_segment_geometry_lem sp unit h =
    let whole : sp / unit * unit ≡ sp = ground (arith, div-add-mod' sp unit) in
    (ground arith, grind arith, whole, ground arith, ground arith)
