-- ===== src/Segment/Steps.antt =====
-- Each step of a segment manager keeps it well-formed.
use native.Mathlib.Nat.{div-add-mod'}
use ummwith_client.Prelude.{
  ℕ, zero, suc, ◌+◌, ◌*◌, ◌/◌, ◌%◌, ◌<◌, ◌≡◌, refl, List, [], ◌∷◌, arith, ◌==◌, if◌then◌else◌,
  Option, some, none, get_elem?, ok, replicate, length-replicate, ap, sym, subst, ◌∙◌,
}
use ummwith_client.Prelude.Int.{ℤ, pos}
use ummwith_client.Umm.{Bytes, ChunkDescriptor}
use ummwith_client.Segment.Geometry.{check_segment_geometry, check_segment_geometry_lem}
use ummwith_client.Segment.Manager.{Manager, init, built, opened}
use ummwith_client.Segment.Count.{occ, units_in, occ-le-units_in, occ-count_up}
use ummwith_client.Segment.Invariant.{IsValid, Buffered, pool_share}

get_elem?-replicate : (n i : ℕ) (z : ℤ) → i < n → get_elem? (replicate n z) i ≡ some z
get_elem?-replicate zero i z h = elim h [ ]
get_elem?-replicate (suc n) zero z h = refl
get_elem?-replicate (suc n) (suc i) z h = get_elem?-replicate n i z (omega arith)

built-IsValid :
    (desc : ChunkDescriptor) (sp unit : ℕ)
    → check_segment_geometry sp unit ≡ ok tt
    → IsValid (built desc sp unit) []
unfolding built occ units_in
built-IsValid desc sp unit h =
    let (unit_pos, slots_pos, whole, _, _) = check_segment_geometry_lem sp unit h in
    record {
      unit_pos = unit_pos;
      slots_pos = slots_pos;
      whole_slots = whole;
      counted = λ seg k. ground (arith, get_elem?-replicate (desc.user_size / sp) seg (pos 0));
      sized = length-replicate (desc.user_size / sp) (pos 0);
      pooled = λ seg. ground (arith, occ-count_up seg 0 (desc.user_size / sp));
      distinct = λ off. omega arith;
      inside = λ off k. absurd (omega arith);
      buffered = refl;
    }

pub init_ok :
    (desc : ChunkDescriptor) (sp unit : ℕ) {m : Manager}
    → init desc sp unit ≡ ok m
    → (check_segment_geometry sp unit ≡ ok tt)
      × (desc.user_size % sp ≡ 0)
      × (built desc sp unit ≡ m)
unfolding init
init_ok desc sp unit h = ground arith

-- A manager that the constructor builds is well-formed, with no live unit, and its segments fill
-- the extent exactly.
pub init_manager-IsValid :
    (desc : ChunkDescriptor) (sp unit : ℕ) {m : Manager}
    → init desc sp unit ≡ ok m
    → IsValid m []
      × (m.n_seg * m.sp_bytes ≡ desc.user_size)
      × (m.sp_bytes ≡ sp)
      × (m.unit_size ≡ unit)
unfolding built
init_manager-IsValid desc sp unit h =
    let (checked, whole, same) = init_ok desc sp unit h in
    subst
      (λ (m : Manager).
        IsValid m []
        × (m.n_seg * m.sp_bytes ≡ desc.user_size)
        × (m.sp_bytes ≡ sp)
        × (m.unit_size ≡ unit))
      same
      (
        built-IsValid desc sp unit checked,
        omega (arith, div-add-mod' desc.user_size sp),
        refl,
        refl,
      )

closed_buffer :
    (m : Manager) (live : List ℕ) (b : Option Bytes) (s : Option ℕ)
    → b ≡ none
    → Buffered m live b s
    → (s ≡ none) × (m.buf_fill ≡ 0)
closed_buffer m live none none e h = (refl, h)
closed_buffer m live none (some seg) e h = absurd h
closed_buffer m live (some b) s e h = cc

module _ {m : Manager} {live : List ℕ} (v : IsValid m live) where
  pool_top :
      (seg : ℕ) (rest : List ℕ)
      → m.free ≡ seg ∷ rest
      → (k : ℕ) → (if seg == k then 1 else 0) + occ k rest ≡ pool_share m live k
  unfolding occ
  pool_top seg rest e k = sym (ap (occ k) e) ∙ v.pooled k

  -- Opening a buffer takes a pooled segment: no live unit lies in it.
  pub opened-IsValid :
      (seg : ℕ) (rest : List ℕ)
      → m.buf ≡ none
      → m.free ≡ seg ∷ rest
      → IsValid (opened m seg rest) live
  opened-IsValid seg rest closed e =
      let (no_seg, fill) = closed_buffer m live m.buf m.buf_seg closed v.buffered in
      let share = pool_top seg rest e seg in
      record {
        unit_pos = v.unit_pos;
        slots_pos = v.slots_pos;
        whole_slots = v.whole_slots;
        counted = v.counted;
        sized = v.sized;
        pooled = λ k. ground (arith, pool_top seg rest e k);
        distinct = v.distinct;
        inside = v.inside;
        buffered = (
          ground arith,
          length-replicate m.sp_bytes 0,
          omega arith,
          λ off alive here. absurd (ground (arith, occ-le-units_in m.sp_bytes seg off live here)),
        );
      }
