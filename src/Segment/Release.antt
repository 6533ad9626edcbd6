-- ===== src/Segment/Release.antt =====
-- `release`: a live unit is given back once, and the segment with its last unit.
use ummwith_client.Prelude.{
  ℕ, ◌-◌, ◌<◌, ◌≡◌, refl, List, ◌∷◌, arith, ◌==◌, if◌then◌else◌, ◌&&◌, not, Option, some, none, set,
  false, ok, err, runtime_error, ℕ_discrete, get_elem?-set_self, get_elem?-set_ne, length-set,
}
use ummwith_client.Prelude.Int.{pos, ◌+ℤ◌}
use ummwith_client.Umm.{Bytes}
use ummwith_client.Segment.Manager.{Manager, is_current, release, segment_of}
use ummwith_client.Segment.Count.{
  occ, units_in, without, occ-le-units_in, occ-without, units_in-without,
}
use ummwith_client.Segment.Invariant.{IsValid, Buffered}

module _ {m : Manager} {live : List ℕ} (v : IsValid m live) (off : ℕ)
    (alive : 0 < occ off live) where
  abbrev seg : ℕ
  seg = segment_of m off

  abbrev units : ℕ
  units = units_in m.sp_bytes seg live

  seg_in : seg < m.n_seg
  seg_in = v.inside off alive

  one_unit : 0 < units
  one_unit = omega (arith, occ-le-units_in m.sp_bytes seg off live refl)

  -- The object afterwards.
  abbrev released : Manager
  released = record m {
    refcount = set m.refcount seg (pos (units - 1));
    free = (if not (is_current m seg) && units == 1 then seg ∷ m.free else m.free);
  }

  released_lem : release m off ≡ ok released
  unfolding release ◌+ℤ◌
  released_lem = ground (arith, v.counted seg seg_in, one_unit)

  kept_buffer :
      (b : Option Bytes) (s : Option ℕ)
      → Buffered m live b s
      → Buffered released (without off live) b s
  kept_buffer none none h = h
  kept_buffer none (some k) h = h
  kept_buffer (some b) none h = h
  kept_buffer (some b) (some k) h =
      (h.0, h.1, h.2, λ o left here. h.3 o (ground (arith, occ-without off o live)) here)

  -- Releasing a live unit succeeds, makes it not live and keeps the manager well-formed: by the
  -- invariant its segment returns to the pool exactly when this was the last unit of a segment that
  -- is not being filled.
  pub release-IsValid :
      (m' : Manager) × (release m off ≡ ok m')
      × IsValid m' (without off live)
      × (occ off (without off live) ≡ 0)
  unfolding occ
  release-IsValid = (
    released,
    released_lem,
    record {
      unit_pos = v.unit_pos;
      slots_pos = v.slots_pos;
      whole_slots = v.whole_slots;
      counted = λ k h. elim (ℕ_discrete seg k) [
        | yes same ↦ ground (
          arith,
          get_elem?-set_self m.refcount seg (pos (units - 1)),
          units_in-without m.sp_bytes k off live alive,
          v.sized,
        )
        | no other ↦ ground (
          arith,
          get_elem?-set_ne m.refcount seg k (pos (units - 1)),
          v.counted k h,
          units_in-without m.sp_bytes k off live alive,
        )
      ];
      sized = omega (arith, v.sized, length-set m.refcount seg (pos (units - 1)));
      pooled = λ k.
          ground
            (arith, v.pooled k, seg_in, one_unit, units_in-without m.sp_bytes k off live alive);
      distinct = λ o. omega (arith, v.distinct o, occ-without off o live);
      inside = λ o h. v.inside o (omega (arith, occ-without off o live));
      buffered = kept_buffer m.buf m.buf_seg v.buffered;
    },
    ground (arith, v.distinct off, occ-without off off live),
  )

-- With no live unit left in its segment a second release is refused.
pub release_unused :
    {m : Manager} {live : List ℕ} (off : ℕ)
    → IsValid m live
    → segment_of m off < m.n_seg
    → is_current m (segment_of m off) ≡ false
    → units_in m.sp_bytes (segment_of m off) live ≡ 0
    → release m off ≡ err runtime_error
unfolding release
release_unused {m} off v inside closed unused = ground (arith, v.counted (segment_of m off) inside)
