-- ===== src/Segment/Methods.antt =====
-- The public methods of a segment manager, on every outcome.
use ummwith_client.Prelude.{
  ℕ, ◌<◌, ◌≡◌, ◌≢◌, List, ◌∷◌, arith, ◌==◌, some, none, length, Bool-cases, true, inl, inr, Result,
  ok, err, ◌⊎◌, sym, subst, ◌∙◌,
}
use ummwith_client.Prelude.Action.{bind_post, ◌>>◌}
use ummwith_client.Umm.{Bytes, UmmLib}
use ummwith_client.Segment.Manager.{
  Manager, State, start, place, is_buffered, read_buffer, flush_locked, open_buffer, roll_over,
  append, on_manager, settle,
}
use ummwith_client.Segment.Count.{occ}
use ummwith_client.Segment.Invariant.{IsValid}
use ummwith_client.Segment.Append.{Buffered-at, new_offset, place-IsValid, place-read_buffer}
use ummwith_client.Segment.Buffering.{
  HasBuffer, Full, Refused, Cause, Ready, Closed, Kept, start-Kept, widen, open_buffer-Kept,
  flush_locked-Kept,
}
use ummwith_client.Segment.Handover.{Safe, append-Safe}

module _ (lib : UmmLib) (unit_size : ℕ) (live : List ℕ) where
  open lib use {Dev}

  -- After an `append`: if it returned an offset, that is new, live and reads as the unit; if it
  -- raised, then no segment is left or the library refused a write.
  abbrev pub Appended : Bytes → Result ℕ × State lib → Type 0
  Appended unit (err e, (m, dev)) = IsValid m live × Cause lib e m
  Appended unit (ok off, (m, dev)) =
      IsValid m (off ∷ live)
      × (occ off live ≡ 0)
      × (is_buffered m off ≡ true)
      × (read_buffer m off unit_size ≡ some unit)

  below :
      (m : Manager)
      → IsValid m live
      → HasBuffer m
      → m.buf_fill ≢ m.slots_per_seg
      → m.buf_fill < m.slots_per_seg
  below m v (seg, buf, at_seg, has) h = omega (arith, (Buffered-at v seg buf at_seg has).2)

  roll_over-Kept :
      (m : Manager) (dev : Dev)
      → IsValid m live
      → m.unit_size ≡ unit_size
      → HasBuffer m
      → Kept lib unit_size live (Cause lib) Ready (roll_over lib (m, dev))
  unfolding roll_over
  roll_over-Kept m dev v e has = elim (Bool-cases (m.buf_fill == m.slots_per_seg)) [
    | inl full ↦ rw full (
        bind_post (Kept lib unit_size live (Refused lib) Closed)
          (Kept lib unit_size live (Cause lib) Ready) (flush_locked lib) (λ _. start lib) (m, dev)
          (flush_locked-Kept lib unit_size live m dev v e has)
          (λ _ s' (v', e', closed).
            widen lib unit_size live Ready (start lib s')
              (start-Kept lib unit_size live s'.0 s'.1 v' e' closed))
          (λ x s' (v', e', refused). (v', e', inr refused)))
    | inr not_full ↦ rw not_full (v, e, (has, below m v has (ground arith)))
  ]

  place-Appended :
      (unit : Bytes) (m : Manager) (dev : Dev)
      → length unit ≡ unit_size
      → IsValid m live
      → m.unit_size ≡ unit_size
      → Ready m
      → Appended unit (on_manager lib (place unit) (m, dev))
  place-Appended unit m dev size v e ((seg, buf, at_seg, has), room) =
      let right_size : length unit ≡ m.unit_size = omega arith in
      let (m', placed, v', fresh, shape, at_seg', has') =
        place-IsValid v seg buf at_seg has room unit right_size in
      let read =
        place-read_buffer v seg buf at_seg has room unit m' right_size shape at_seg' has' in
      subst (λ r. Appended unit (settle lib (m, dev) r)) (sym placed)
        (
          v',
          fresh,
          read.0,
          subst (λ n. read_buffer m' (new_offset v seg buf at_seg has) n ≡ some unit) e read.1,
        )

  append-Appended_shape :
      (unit : Bytes) (m : Manager) (dev : Dev)
      → IsValid m live
      → m.unit_size ≡ unit_size
      → length unit ≡ unit_size
      → Appended unit (append lib unit (m, dev))
  unfolding append
  append-Appended_shape unit m dev v e size =
      let right_size : (length unit == m.unit_size) ≡ true = ground arith in
      rw right_size (
        bind_post (Kept lib unit_size live Full HasBuffer) (Appended unit) (open_buffer lib)
          (λ _. roll_over lib >> on_manager lib (place unit)) (m, dev)
          (open_buffer-Kept lib unit_size live m dev v e)
          (λ _ s (v1, e1, has).
            bind_post (Kept lib unit_size live (Cause lib) Ready) (Appended unit) (roll_over lib)
              (λ _. on_manager lib (place unit)) s (roll_over-Kept s.0 s.1 v1 e1 has)
              (λ _ s' (v2, e2, ready). place-Appended unit s'.0 s'.1 size v2 e2 ready)
              (λ x s' (v', e', cause). (v', cause)))
          (λ x s (v', e', full). (v', inl full)))

  -- `append` of a unit of the right size keeps the manager well-formed on every path. If it returns
  -- an offset, the offset was not live, now is, and reads back as the unit from the buffer. If it
  -- raises, the cause is that no segment is left (a SegmentFullError) or that the library raised the
  -- error on the write of a segment. On every path the units that were in the buffer are not lost, as
  -- `Safe` says: they are still in it, or the library has taken the buffer by a write at the place of
  -- its segment.
  pub append-Appended :
      (unit : Bytes) (m : Manager) (dev : Dev)
      → IsValid m live
      → m.unit_size ≡ unit_size
      → length unit ≡ unit_size
      → Appended unit (append lib unit (m, dev)) × Safe lib (m, dev) (append lib unit (m, dev))
  append-Appended unit m dev v e size =
      (append-Appended_shape unit m dev v e size, append-Safe lib v dev unit (size ∙ sym e))

  -- Nothing waits to be written: there is no buffer, or no unit in it.
  abbrev pub Drained : Manager → Type 0
  Drained m = (m.buf ≡ none) ⊎ (m.buf_fill ≡ 0)
