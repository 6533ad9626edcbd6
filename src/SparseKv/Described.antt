-- ===== src/SparseKv/Described.antt =====
-- One round of the loop of `plan` of bmpclient/sparse_kv/store.py: the entry that it writes, or why it raises.
use ummwith_client.Prelude.{
  ℕ, suc, ◌+◌, ◌*◌, ◌≤◌, ◌≡◌, refl, sym, subst, ap, ◌∙◌, Bool, true, false, List, [], ◌∷◌, arith,
  Error, if◌then◌else◌, length, Result, ok, err,
}
use ummwith_client.Prelude.Action.{Action, continue, ◌>>=◌}
use ummwith_client.Prelude.Int.{pos}
use ummwith_client.Prelude.Splice.{
  splice, slice, length-splice, slice-splice_self, slice-splice_before,
}
use ummwith_client.Umm.{Bytes, UmmLib}
use ummwith_client.SlotTable.Entry.{entry_offset}
use ummwith_client.VirtualMedia.Media as Media
use ummwith_client.VirtualMedia.Looks.{is_buffered-still, extent_base-still, read_buffered-buffered}
use ummwith_client.SparseKv.Layout.{
  header_size, entry_size, entry_fields, entry_widths, pack, unpack, unpack-pack,
}
use ummwith_client.SparseKv.Store as Store
use ummwith_client.SparseKv.Store.{Store, State, entry_valid}
use ummwith_client.SparseKv.Planning.{flag_disk, flag_host_ready, stage, stage_buffered, pack_into}

-- The place of entry `i`.
abbrev pub entry_at : ℕ → ℕ
entry_at i = header_size + i * entry_size

module _ (lib : UmmLib) (m : Media.State lib) (size : ℕ) where
  -- The flag says whether the unit is still in a write buffer.
  abbrev pub FlagOf : ℕ → ℕ → ℕ → Type 0
  FlagOf d off flags =
      (buffered : Bool) × ((Media.media_is_buffered lib (pos d) off m).0 ≡ ok buffered)
      × (flags ≡ (if buffered then flag_host_ready else flag_disk))

  -- Entry `i` of the buffer, for the table entry `e` on device `d`.
  abbrev pub Described : Bytes → ℕ → ℕ → ℕ → Type 0
  Described buf i e d =
      (flags : ℕ) × (base : ℕ) × (entry_valid e ≡ true)
      × FlagOf d (entry_offset e) flags
      × ((Media.extent_base lib (pos d) m).0 ≡ ok base)
      × (unpack entry_widths (slice buf (entry_at i) entry_size)
          ≡ d ∷ flags ∷ (base + entry_offset e) ∷ size ∷ (i * size) ∷ [])

  abbrev pub AllDescribed : Bytes → ℕ → List (ℕ × ℕ) → Type 0
  AllDescribed buf i [] = Unit
  AllDescribed buf i ((e, d) ∷ rest) = Described buf i e d × AllDescribed buf (suc i) rest

  -- What entry `i` needs: a unit that is there, a device that has an extent, and fields that have
  -- their width.
  abbrev pub Fits : ℕ → ℕ → ℕ → Type 0
  Fits i e d =
      (flags : ℕ) × (base : ℕ) × (bytes : Bytes) × (entry_valid e ≡ true)
      × FlagOf d (entry_offset e) flags
      × ((Media.extent_base lib (pos d) m).0 ≡ ok base)
      × (pack (entry_fields d flags (base + entry_offset e) size (i * size)) ≡ ok bytes)

  abbrev pub AllFit : ℕ → List (ℕ × ℕ) → Type 0
  AllFit i [] = Unit
  AllFit i ((e, d) ∷ rest) = Fits i e d × AllFit (suc i) rest

  -- What stays: the media, the length of the buffer and its bytes up to `upto`.
  abbrev pub Kept : Store → ℕ → State lib → Type 0
  Kept s upto (s', m') =
      (m' ≡ m)
      × (s'.unit_size ≡ s.unit_size)
      × (length s'.desc_buf ≡ length s.desc_buf)
      × ((at n : ℕ) → at + n ≤ upto → slice s'.desc_buf at n ≡ slice s.desc_buf at n)

  abbrev Staged : Store → ℕ → ℕ → Result ℕ × State lib → Type 0
  Staged s d off (err e, s') = (s'.1 ≡ m) × ((flags : ℕ) → ¬ (FlagOf d off flags))
  Staged s d off (ok flags, (s', m')) =
      (m' ≡ m) × (s'.unit_size ≡ s.unit_size) × (s'.desc_buf ≡ s.desc_buf) × FlagOf d off flags

  unknown_flag :
      (d off : ℕ) (e : Error)
      → (Media.media_is_buffered lib (pos d) off m).0 ≡ err e
      → (flags : ℕ) → ¬ (FlagOf d off flags)
  unknown_flag d off e h flags (buffered, found, same) = cc (h, found)

  pub stage_buffered-Staged :
      (s : Store) (d off dst : ℕ) → Staged s d off (stage_buffered lib (pos d) off dst (s, m))
  unfolding stage_buffered
  stage_buffered-Staged s d off dst = by_result (Media.media_is_buffered lib (pos d) off m).0 (
      ap (λ x. ((Media.media_is_buffered lib (pos d) off m).0, x))
        (is_buffered-still lib (pos d) off m))
    where
      by_result :
          (r : Result Bool)
          → Media.media_is_buffered lib (pos d) off m ≡ (r, m)
          → Staged s d off (stage_buffered lib (pos d) off dst (s, m))
      by_result (err e) h = rw h (refl, unknown_flag d off e (ap (λ x. x.0) h))
      by_result (ok false) h = rw h (refl, refl, refl, (false, ap (λ x. x.0) h, refl))
      by_result (ok true) h =
          let (unit, g) = read_buffered-buffered lib (pos d) off m (ap (λ x. x.0) h) in
          rw (h, g, stage) (refl, refl, refl, (true, ap (λ x. x.0) h, refl))

  abbrev pub Entered : Store → ℕ → ℕ → ℕ → Result (Unit {0}) × State lib → Type 0
  Entered s i e d (err why, s') = (s'.1 ≡ m) × ¬ (Fits i e d)
  Entered s i e d (ok _, s') = Kept s (entry_at i) s' × Described s'.0.desc_buf i e d

  -- One entry, once its flag and base are known.
  packed-Entered :
      (s s' : Store) (i e d flags base : ℕ) (bytes : Bytes)
      → entry_at i + entry_size ≤ length s.desc_buf
      → entry_valid e ≡ true
      → (s'.unit_size ≡ s.unit_size) × (s'.desc_buf ≡ s.desc_buf) × FlagOf d (entry_offset e) flags
      → (Media.extent_base lib (pos d) m).0 ≡ ok base
      → pack (entry_fields d flags (base + entry_offset e) size (i * size)) ≡ ok bytes
      → Kept s (entry_at i) (record s' { desc_buf = splice s'.desc_buf (entry_at i) bytes }, m)
        × Described (splice s'.desc_buf (entry_at i) bytes) i e d
  packed-Entered s s' i e d flags base bytes fits valid (units, buf, flag) found packed =
      let (n, back) =
        unpack-pack (entry_fields d flags (base + entry_offset e) size (i * size)) bytes packed in
      let room : entry_at i + length bytes ≤ length s.desc_buf = omega arith in
      rw buf (
        (
          refl,
          units,
          length-splice s.desc_buf (entry_at i) bytes room,
          λ at k h. slice-splice_before s.desc_buf (entry_at i) bytes at k room h,
        ),
        (
          flags,
          base,
          valid,
          flag,
          found,
          ap (unpack entry_widths) (
                ap (slice (splice s.desc_buf (entry_at i) bytes) (entry_at i)) (sym n)
                ∙ slice-splice_self s.desc_buf (entry_at i) bytes room)
              ∙ back,
        ),
      )

  flag_once : (d off flags flags' : ℕ) → FlagOf d off flags → FlagOf d off flags' → flags' ≡ flags
  flag_once d off flags flags' (b, h, e) (b', h', e') = cc (h, h', e, e')

  -- Fields that do not have their width.
  no_room :
      (i e d flags base : ℕ) (why : Error)
      → FlagOf d (entry_offset e) flags
      → (Media.extent_base lib (pos d) m).0 ≡ ok base
      → pack (entry_fields d flags (base + entry_offset e) size (i * size)) ≡ err why
      → ¬ (Fits i e d)
  no_room i e d flags base why flag found g (flags', base', bytes, valid, flag', found', fits) =
      let same = flag_once d (entry_offset e) flags flags' flag flag' in
      let same' : base' ≡ base = cc (found, found') in cc (g, fits, same, same')

  pack_into-Entered :
      (s s' : Store) (i e d flags base : ℕ) (r : Result Bytes)
      → entry_at i + entry_size ≤ length s.desc_buf
      → entry_valid e ≡ true
      → (s'.unit_size ≡ s.unit_size) × (s'.desc_buf ≡ s.desc_buf) × FlagOf d (entry_offset e) flags
      → (Media.extent_base lib (pos d) m).0 ≡ ok base
      → pack (entry_fields d flags (base + entry_offset e) size (i * size)) ≡ r
      → Entered s i e d (
          pack_into lib
            (entry_at i)
            (entry_fields d flags (base + entry_offset e) size (i * size))
            (s', m))
  unfolding pack_into
  pack_into-Entered s s' i e d flags base (err why) fits valid same found g =
      rw g (refl, no_room i e d flags base why same.2 found g)
  pack_into-Entered s s' i e d flags base (ok bytes) fits valid same found g =
      rw g (packed-Entered s s' i e d flags base bytes fits valid same found g)

  -- The rest of the round, once the flag is known.
  abbrev finish : ℕ → ℕ → ℕ → ℕ → Action (State lib) (Unit {0})
  finish i e d flags = do
    base ← Store.media lib (Media.extent_base lib (pos d))
    pack_into lib (entry_at i) (entry_fields d flags (base + entry_offset e) size (i * size))

  finish-Entered :
      (s s' : Store) (i e d flags : ℕ)
      → entry_at i + entry_size ≤ length s.desc_buf
      → entry_valid e ≡ true
      → (s'.unit_size ≡ s.unit_size) × (s'.desc_buf ≡ s.desc_buf) × FlagOf d (entry_offset e) flags
      → Entered s i e d (finish i e d flags (s', m))
  finish-Entered s s' i e d flags fits valid same =
      by_base (Media.extent_base lib (pos d) m).0
        (ap (λ x. ((Media.extent_base lib (pos d) m).0, x)) (extent_base-still lib (pos d) m))
    where
      by_base :
          (r : Result ℕ)
          → Media.extent_base lib (pos d) m ≡ (r, m)
          → Entered s i e d (finish i e d flags (s', m))
      by_base (err why) h =
          let absent : (Media.extent_base lib (pos d) m).0 ≡ err why = ap (λ x. x.0) h in
          rw h (refl, λ (flags', base', bytes, valid, flag, found, fits). cc (absent, found))
      by_base (ok base) h = rw h (
          pack_into-Entered s s' i e d flags base
            (pack (entry_fields d flags (base + entry_offset e) size (i * size))) fits valid same
            (ap (λ x. x.0) h) refl)

  pub Staged-Entered :
      (s : Store) (i e d : ℕ) (r : Result ℕ × State lib)
      → entry_at i + entry_size ≤ length s.desc_buf
      → entry_valid e ≡ true
      → Staged s d (entry_offset e) r
      → Entered s i e d (continue r.0 (finish i e d) r.1)
  Staged-Entered s i e d (err why, s') fits valid (still, unknown) =
      (still, λ (flags, base, bytes, valid', flag, found, packed). unknown flags flag)
  Staged-Entered s i e d (ok flags, (s', m')) fits valid (still, units, buf, flag) =
      subst (λ x. Entered s i e d (finish i e d flags (s', x))) (sym still)
        (finish-Entered s s' i e d flags fits valid (units, buf, flag))
