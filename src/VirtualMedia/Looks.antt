-- ===== src/VirtualMedia/Looks.antt =====
-- The methods of `VirtualMedia` that only look: they leave the media and the devices as they are.
use ummwith_client.Prelude.{
  ℕ, ◌-◌, ◌*◌, ◌≡◌, refl, Bool, true, false, Option, none, some, length, get_elem?, ok, arith, ltb,
}
use ummwith_client.Prelude.Int.{ℤ, pos, negsuc}
use ummwith_client.Prelude.Splice.{slice}
use ummwith_client.Umm.{Bytes, UmmLib}
use ummwith_client.Segment.Manager as Segment
use ummwith_client.Segment.Manager.{Manager, is_current, segment_of}
use ummwith_client.VirtualMedia.Media.{State, media_is_buffered, read_buffered, extent_base}

-- A unit of the open segment can be read from the buffer.
is_buffered-read_buffer :
    (m : Manager) (off size : ℕ)
    → Segment.is_buffered m off ≡ true
    → (unit : Bytes) × (Segment.read_buffer m off size ≡ some unit)
unfolding Segment.is_buffered Segment.read_buffer
is_buffered-read_buffer m off size h = by_buffer m.buf m.buf_seg refl refl h
  where
    by_buffer :
        (b : Option Bytes) (s : Option ℕ)
        → m.buf ≡ b
        → m.buf_seg ≡ s
        → Segment.is_buffered m off ≡ true
        → (unit : Bytes) × (Segment.read_buffer m off size ≡ some unit)
    by_buffer none s e f g = absurd (ground arith)
    by_buffer (some b) none e f g = absurd (ground arith)
    by_buffer (some b) (some seg) e f g = (slice b (off - seg * m.sp_bytes) size, ground arith)

module _ (lib : UmmLib) where
  pub is_buffered-still : (d : ℤ) (off : ℕ) (s : State lib) → (media_is_buffered lib d off s).1 ≡ s
  unfolding media_is_buffered
  is_buffered-still d off s = ground arith

  pub read_buffered-still : (d : ℤ) (off : ℕ) (s : State lib) → (read_buffered lib d off s).1 ≡ s
  unfolding read_buffered
  read_buffered-still d off s = ground arith

  pub extent_base-still : (d : ℤ) (s : State lib) → (extent_base lib d s).1 ≡ s
  unfolding extent_base
  extent_base-still d s = ground arith

  -- What `is_buffered` answers true for, `read_buffered` returns.
  pub read_buffered-buffered :
      (d : ℤ) (off : ℕ) (s : State lib)
      → (media_is_buffered lib d off s).0 ≡ ok true
      → (unit : Bytes) × (read_buffered lib d off s ≡ (ok (some unit), s))
  unfolding media_is_buffered read_buffered
  read_buffered-buffered (negsuc d) off s h = absurd (ground arith)
  read_buffered-buffered (pos d) off s h =
      by_parts (ltb d (length s.0.mgrs)) (get_elem? s.0.mgrs d) refl refl
    where
      by_parts :
          (b : Bool) (o : Option Manager)
          → ltb d (length s.0.mgrs) ≡ b
          → get_elem? s.0.mgrs d ≡ o
          → (unit : Bytes) × (read_buffered lib (pos d) off s ≡ (ok (some unit), s))
      by_parts false o e f = absurd (ground arith)
      by_parts true none e f = absurd (ground arith)
      by_parts true (some m) e f =
          let (unit, g) = is_buffered-read_buffer m off s.0.merging.unit_size (ground arith) in
          (unit, ground arith)
