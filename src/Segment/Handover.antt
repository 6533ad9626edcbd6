-- ===== src/Segment/Handover.antt =====
-- What becomes of the units in the buffer of a segment manager, bmpclient/_vm_segment.py: they stay there,
-- or the library has taken the whole segment.
use ummwith_client.Prelude.{
  ℕ, ◌+◌, ◌*◌, ◌≤◌, ◌<◌, ◌≡◌, refl, List, [], ◌∷◌, arith, ◌==◌, some, none, length, Bool-cases,
  true, false, inl, inr, Result, ok, err, ◌⊎◌, sym, subst, ◌∙◌,
}
use ummwith_client.Prelude.Action.{Action, continue, ◌>>◌}
use ummwith_client.Prelude.Splice.{splice, slice, slice-splice_before}
use ummwith_client.Umm.{Bytes, UmmLib}
use ummwith_client.Segment.Manager.{
  Manager, State, start, after_write, roll_over, on_manager, settle, append, place, start_segment,
  updated, drop_buffer, opened,
}
use ummwith_client.Segment.Invariant.{IsValid}
use ummwith_client.Segment.Append.{Buffered-at, place-IsValid, slot_of_buffer, drop_buffer-IsValid}
use ummwith_client.Segment.Buffering.{
  has_buffer, start-empty, start-pooled, open_buffer-closed, open_buffer-open, flush_locked-open,
}

-- The bytes below the fill mark of the buffer are still in it.
abbrev pub KeepsUnits : Manager → Manager → Type 0
KeepsUnits m m' =
    (m'.buf_seg ≡ m.buf_seg)
    × ((buf : Bytes) × (buf' : Bytes) × (m.buf ≡ some buf)
        × (m'.buf ≡ some buf')
        × ((at k : ℕ) → at + k ≤ m.buf_fill * m.unit_size → slice buf' at k ≡ slice buf at k))

module _ (lib : UmmLib) where
  open lib use {Dev}

  -- The write of the buffer at the place of its segment gives `w`.
  abbrev pub Writes : State lib → Result ℕ × Dev → Type 0
  Writes (m, dev) w =
      (seg : ℕ) × (buf : Bytes) × (m.buf_seg ≡ some seg)
      × (m.buf ≡ some buf)
      × (lib.write_from m.desc (seg * m.sp_bytes) buf dev ≡ w)

  -- The library has taken the buffer, after which the devices are in the state `dev'`.
  abbrev pub Taken : State lib → Dev → Type 0
  Taken s dev' = (n : ℕ) × Writes s (ok n, dev')

  -- After an `append`: the devices are as before and the units of the buffer still in it, or the library
  -- has taken the buffer. After an error: the devices and the buffer are as before, or a write of the
  -- buffer was refused and the manager is as before, or the library has taken the buffer.
  abbrev pub Safe : State lib → Result ℕ × State lib → Type 0
  Safe (m, dev) (ok off, (m', dev')) =
      ((dev' ≡ dev) × ((m.buf ≡ none) ⊎ KeepsUnits m m')) ⊎ Taken (m, dev) dev'
  Safe (m, dev) (err e, (m', dev')) =
      ((dev' ≡ dev) × ((m.buf ≡ none) ⊎ (m' ≡ m)))
      ⊎ ((m' ≡ m) × Writes (m, dev) (err e, dev'))
      ⊎ Taken (m, dev) dev'

  -- After a `flush`: there was nothing to write and nothing has changed, or the library has taken the
  -- buffer. After an error: the write of the buffer was refused, and the manager is as before.
  abbrev pub Flushed : State lib → Result (Unit {0}) × State lib → Type 0
  Flushed (m, dev) (ok _, (m', dev')) =
      (((m.buf ≡ none) ⊎ (m.buf_fill ≡ 0)) × (m' ≡ m) × (dev' ≡ dev)) ⊎ Taken (m, dev) dev'
  Flushed (m, dev) (err e, (m', dev')) = (m' ≡ m) × Writes (m, dev) (err e, dev')

  dev-settle :
      {A : Type 0} (m : Manager) (dev : Dev) (r : Result (A × Manager))
      → (settle lib (m, dev) r).1.1 ≡ dev
  dev-settle m dev (ok (a, m')) = refl
  dev-settle m dev (err e) = refl

  dev-continue :
      {A B : Type 0} (f : A → Manager → Result (B × Manager)) (r : Result A × State lib)
      → (continue r.0 (λ a. on_manager lib (f a)) r.1).1.1 ≡ r.1.1
  dev-continue f (ok a, (m, dev)) = dev-settle m dev (f a m)
  dev-continue f (err e, s) = refl

  Taken-Safe :
      (s : State lib) (dev : Dev) (r : Result ℕ × State lib) → Taken s dev → r.1.1 ≡ dev → Safe s r
  Taken-Safe s dev (ok a, (m, d)) taken e = inr (subst (Taken s) (sym e) taken)
  Taken-Safe s dev (err x, (m, d)) taken e = inr (inr (subst (Taken s) (sym e) taken))

  -- The last step of an `append` that found no buffer.
  opened-Safe :
      (s : State lib) (m : Manager) (r : Result (ℕ × Manager))
      → s.0.buf ≡ none
      → Safe s (settle lib (m, s.1) r)
  opened-Safe s m (ok (off, m')) closed = inl (refl, inl closed)
  opened-Safe s m (err e) closed = inl (refl, inl closed)

  module _ {m : Manager} {live : List ℕ} (v : IsValid m live) (dev : Dev) (unit : Bytes)
      (right_size : length unit ≡ m.unit_size) where
    last : Action (State lib) ℕ
    last = on_manager lib (place unit)

    place-Safe :
        (seg : ℕ) (buf : Bytes)
        → m.buf_seg ≡ some seg
        → m.buf ≡ some buf
        → m.buf_fill < m.slots_per_seg
        → Safe (m, dev) (last (m, dev))
    unfolding last
    place-Safe seg buf at_seg has room =
        let (m', placed, v', fresh, shape, at_seg', has') =
          place-IsValid v seg buf at_seg has room unit right_size in
        subst (λ r. Safe (m, dev) (settle lib (m, dev) r)) (sym placed)
          (inl (
            refl,
            inr (
              at_seg' ∙ sym at_seg,
              (
                buf,
                splice buf (m.buf_fill * m.unit_size) unit,
                has,
                has',
                λ at k h.
                    slice-splice_before buf (m.buf_fill * m.unit_size) unit at k
                      (slot_of_buffer v seg buf at_seg has room unit right_size) h,
              ),
            ),
          ))

    -- A full buffer is written first.
    full-Safe :
        (seg : ℕ) (buf : Bytes)
        → m.buf_seg ≡ some seg
        → m.buf ≡ some buf
        → (w : Result ℕ × Dev) → lib.write_from m.desc (seg * m.sp_bytes) buf dev ≡ w
        → Safe
            (m, dev)
            (let r = after_write lib m seg w in
              let t = continue r.0 (λ _. start lib) r.1 in continue t.0 (λ _. last) t.1)
    unfolding last
    full-Safe seg buf at_seg has (err e, dev') h = inr (inl (refl, (seg, buf, at_seg, has, h)))
    full-Safe seg buf at_seg has (ok n, dev') h =
        let r = after_write lib m seg (ok n, dev') in
        let t = continue r.0 (λ _. start lib) r.1 in
        Taken-Safe (m, dev) dev' (continue t.0 (λ _. last) t.1) (n, (seg, buf, at_seg, has, h))
          (dev-continue (λ _. place unit) t
            ∙ dev-continue (λ _ x. updated lib (start_segment x)) r
            ∙ dev-settle m dev' (updated lib (drop_buffer m seg)))

    filled-Safe :
        (seg : ℕ) (buf : Bytes)
        → m.buf_seg ≡ some seg
        → m.buf ≡ some buf
        → Safe (m, dev) ((roll_over lib >> last) (m, dev))
    unfolding roll_over
    filled-Safe seg buf at_seg has = elim (Bool-cases (m.buf_fill == m.slots_per_seg)) [
      | inl full ↦ rw full (
          subst
            (λ r.
              Safe (m, dev)
                (let t = continue r.0 (λ (_ : Unit {0}). start lib) r.1 in
                  continue t.0 (λ (_ : Unit {0}). last) t.1))
            (sym (flush_locked-open lib 0 [] m dev seg buf at_seg has))
            (full-Safe seg buf at_seg has _ refl))
      | inr not_full ↦ rw not_full (
          place-Safe seg buf at_seg has
            (ground (arith, not_full, (Buffered-at v seg buf at_seg has).2)))
    ]

    start-Safe :
        (free : List ℕ)
        → m.free ≡ free
        → m.buf ≡ none
        → Safe
            (m, dev)
            (let r = start lib (m, dev) in continue r.0 (λ _. roll_over lib >> last) r.1)
    unfolding roll_over last
    start-Safe [] empty closed = rw (start-empty lib 0 [] m dev empty) (inl (refl, inl closed))
    start-Safe (seg ∷ rest) top closed =
        let not_full : (0 == m.slots_per_seg) ≡ false = ground (arith, v.slots_pos) in
        rw (start-pooled lib 0 [] m dev seg rest top, not_full)
          (opened-Safe (m, dev) (opened m seg rest) (place unit (opened m seg rest)) closed)

    pub append-Safe : Safe (m, dev) (append lib unit (m, dev))
    unfolding append last
    append-Safe =
        let same : (length unit == m.unit_size) ≡ true = ground (arith, right_size) in
        rw same (elim (has_buffer m live m.buf m.buf_seg refl refl v.buffered) [
          | inl closed ↦
              subst
                (λ r. Safe (m, dev) (continue r.0 (λ (_ : Unit {0}). roll_over lib >> last) r.1))
                (sym (open_buffer-closed lib 0 [] m dev closed)) (start-Safe m.free refl closed)
          | inr (seg, buf, at_seg, has) ↦
              subst
                (λ r. Safe (m, dev) (continue r.0 (λ (_ : Unit {0}). roll_over lib >> last) r.1))
                (sym (open_buffer-open lib 0 [] m dev buf has)) (filled-Safe seg buf at_seg has)
        ])

  -- After the write of a flush.
  pub written-Flushed :
      {m : Manager} {live : List ℕ} (v : IsValid m live) (dev : Dev) (seg : ℕ) (buf : Bytes)
      → m.buf_seg ≡ some seg
      → m.buf ≡ some buf
      → (w : Result ℕ × Dev) → lib.write_from m.desc (seg * m.sp_bytes) buf dev ≡ w
      → Flushed (m, dev) (after_write lib m seg w)
  written-Flushed {m} v dev seg buf at_seg has (err e, dev') h = (refl, (seg, buf, at_seg, has, h))
  written-Flushed {m} v dev seg buf at_seg has (ok n, dev') h =
      let (m', dropped, valid, closed, shape) = drop_buffer-IsValid v seg buf at_seg has in
      subst (λ r. Flushed (m, dev) (settle lib (m, dev') (updated lib r))) (sym dropped)
        (inr (n, (seg, buf, at_seg, has, h)))
