-- ===== src/Segment/Append.antt =====
-- `append`: the offset that it hands out is new, and the unit can be read back from the buffer.
use native.Mathlib.Nat.{div-eq_of_lt-le, mul-le-mul_right}
use ummwith_client.Prelude.{
  ℕ, suc, ◌+◌, ◌-◌, ◌*◌, ◌/◌, ◌≤◌, ◌<◌, ◌≡◌, refl, List, ◌∷◌, arith, ◌==◌, if◌then◌else◌, some,
  none, length, set, true, ok, ap, sym, subst, ◌∙◌, get_elem?-set_self, get_elem?-set_ne,
  length-set, dec_lt,
}
use ummwith_client.Prelude.Int.{pos, ◌+ℤ◌}
use ummwith_client.Prelude.Splice.{splice, slice, length-splice, slice-splice_self}
use ummwith_client.Umm.{Bytes}
use ummwith_client.Segment.Manager.{Manager, drop_buffer, place, is_buffered, read_buffer}
use ummwith_client.Segment.Count.{occ, units_in}
use ummwith_client.Segment.Invariant.{IsValid, Buffered}

-- The sizes that no method changes.
abbrev pub SameShape : Manager → Manager → Type 0
SameShape m m' =
    (m'.sp_bytes ≡ m.sp_bytes)
    × (m'.unit_size ≡ m.unit_size)
    × (m'.slots_per_seg ≡ m.slots_per_seg)
    × (m'.n_seg ≡ m.n_seg)
    × (m'.desc ≡ m.desc)

module _ {m : Manager} {live : List ℕ} (v : IsValid m live) (seg : ℕ) (buf : Bytes)
    (at_seg : m.buf_seg ≡ some seg) (has : m.buf ≡ some buf) where
  pub Buffered-at : Buffered m live (some buf) (some seg)
  Buffered-at =
      subst (λ b. Buffered m live b (some seg)) has
        (subst (Buffered m live m.buf) at_seg v.buffered)

  -- After its write the buffer is gone and the manager is well-formed; a segment whose units were
  -- all released before goes back to the pool.
  pub drop_buffer-IsValid :
      (m' : Manager) × (drop_buffer m seg ≡ ok m')
      × IsValid m' live
      × (m'.buf ≡ none)
      × SameShape m m'
  unfolding drop_buffer occ
  drop_buffer-IsValid =
      let count = v.counted seg Buffered-at.0 in
      let u : ℕ = units_in m.sp_bytes seg live in
      let m' : Manager = record m {
        buf = none;
        buf_seg = none;
        buf_fill = 0;
        free = (if u == 0 then seg ∷ m.free else m.free);
      } in
      (
        m',
        ground arith,
        record {
          unit_pos = v.unit_pos;
          slots_pos = v.slots_pos;
          whole_slots = v.whole_slots;
          counted = v.counted;
          sized = v.sized;
          pooled = λ k. ground (arith, v.pooled k, Buffered-at.0);
          distinct = v.distinct;
          inside = v.inside;
          buffered = refl;
        },
        refl,
        (refl, refl, refl, refl, refl),
      )

  -- The offset of the next free slot.
  abbrev pub new_offset : ℕ
  new_offset = seg * m.sp_bytes + m.buf_fill * m.unit_size

  module _ (room : m.buf_fill < m.slots_per_seg) where
    slot_inside : m.buf_fill * m.unit_size + m.unit_size ≤ m.sp_bytes
    slot_inside =
        let next : suc m.buf_fill ≤ m.slots_per_seg = room in
        omega (arith, mul-le-mul_right m.unit_size next, v.whole_slots)

    new_offset-segment : new_offset / m.sp_bytes ≡ seg
    new_offset-segment =
        div-eq_of_lt-le m.sp_bytes (omega arith) (omega (arith, slot_inside, v.unit_pos))

    -- The offset of the next slot is not live.
    new_offset_fresh : occ new_offset live ≡ 0
    new_offset_fresh = elim (dec_lt 0 (occ new_offset live)) [
      | yes alive ↦ absurd (omega (arith, Buffered-at.3 new_offset alive new_offset-segment))
      | no none_alive ↦ omega arith
    ]

    pub slot_of_buffer :
        (unit : Bytes)
        → length unit ≡ m.unit_size
        → m.buf_fill * m.unit_size + length unit ≤ length buf
    slot_of_buffer unit e = omega (arith, slot_inside, Buffered-at.1)

    -- The unit goes to the next free slot: its offset was not live, and the manager is well-formed
    -- with the offset live.
    pub place-IsValid :
        (unit : Bytes)
        → length unit ≡ m.unit_size
        → (m' : Manager) × (place unit m ≡ ok (new_offset, m'))
          × IsValid m' (new_offset ∷ live)
          × (occ new_offset live ≡ 0)
          × SameShape m m'
          × (m'.buf_seg ≡ some seg)
          × (m'.buf ≡ some (splice buf (m.buf_fill * m.unit_size) unit))
    unfolding place occ units_in ◌+ℤ◌
    place-IsValid unit e =
        let u : ℕ = units_in m.sp_bytes seg live in
        let m' : Manager = record m {
          buf = some (splice buf (m.buf_fill * m.unit_size) unit);
          buf_fill = m.buf_fill + 1;
          refcount = set m.refcount seg (pos (u + 1));
        } in
        (
          m',
          ground (arith, v.counted seg Buffered-at.0),
          record {
            unit_pos = v.unit_pos;
            slots_pos = v.slots_pos;
            whole_slots = v.whole_slots;
            counted = λ k h. elim (dec_lt k seg) [
              | yes less ↦ ground (
                arith,
                get_elem?-set_ne m.refcount seg k (pos (u + 1)),
                v.counted k h,
                new_offset-segment,
              )
              | no over ↦ elim (dec_lt seg k) [
                | yes more ↦ ground (
                  arith,
                  get_elem?-set_ne m.refcount seg k (pos (u + 1)),
                  v.counted k h,
                  new_offset-segment,
                )
                | no equal ↦
                    let same : seg ≡ k = omega arith in
                    ground (
                      arith,
                      get_elem?-set_self m.refcount seg (pos (u + 1)),
                      new_offset-segment,
                      v.sized,
                    )
              ]
            ];
            sized = omega (arith, v.sized, length-set m.refcount seg (pos (u + 1)));
            pooled = λ k. ground (arith, v.pooled k, new_offset-segment);
            distinct = λ off. ground (arith, v.distinct off, new_offset_fresh);
            inside = λ off h. ground (arith, v.inside off, Buffered-at.0, new_offset-segment);
            buffered =
                subst
                  (λ b.
                    Buffered m' (new_offset ∷ live)
                      (some (splice buf (m.buf_fill * m.unit_size) unit)) b)
                  (sym at_seg)
                  (
                    Buffered-at.0,
                    length-splice buf (m.buf_fill * m.unit_size) unit (slot_of_buffer unit e)
                        ∙ Buffered-at.1,
                    omega arith,
                    λ off h here. ground (arith, Buffered-at.3 off, v.unit_pos),
                  );
          },
          new_offset_fresh,
          (refl, refl, refl, refl, refl),
          at_seg,
          refl,
        )

    -- From then on the unit is buffered, and the buffer returns it.
    pub place-read_buffer :
        (unit : Bytes) (m' : Manager)
        → length unit ≡ m.unit_size
        → SameShape m m'
        → m'.buf_seg ≡ some seg
        → m'.buf ≡ some (splice buf (m.buf_fill * m.unit_size) unit)
        → (is_buffered m' new_offset ≡ true) × (read_buffer m' new_offset m.unit_size ≡ some unit)
    unfolding is_buffered read_buffer
    place-read_buffer unit m' e shape at_seg' has' =
        let start : ℕ = m.buf_fill * m.unit_size in
        let local : new_offset - seg * m.sp_bytes ≡ start = omega arith in
        let there : slice (splice buf start unit) start m.unit_size ≡ unit =
          ap (slice (splice buf start unit) start) (sym e)
          ∙ slice-splice_self buf start unit (slot_of_buffer unit e) in
        (ground (arith, new_offset-segment), ground (arith, new_offset-segment))
