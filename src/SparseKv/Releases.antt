-- ===== src/SparseKv/Releases.antt =====
-- `release` of one token: the table, the read cache and the manager of the device.
use ummwith_client.Prelude.{
  ℕ, ◌<◌, ◌≡◌, ◌≢◌, refl, sym, subst, ap, ◌∙◌, true, false, some, List, arith, if◌then◌else◌,
  length, get_elem?, set, ok, ltb, ◌==◌, lt→ltb, Bool-cases, inl, inr, none, [], ◌∷◌,
}
use ummwith_client.Prelude.Int.{ℤ, pos, negsuc}
use ummwith_client.Umm.{Bytes, UmmLib}
use ummwith_client.Strategy as Strategy
use ummwith_client.SlotTable as Slots
use ummwith_client.SlotTable.{SlotTable}
use ummwith_client.SlotTable.Entry.{entry_offset, flag_valid}
use ummwith_client.SlotTable.Updates as Updates
use ummwith_client.SlotTable.Updates.{SameElsewhere, invalidate_lem}
use ummwith_client.Segment.Manager as Segment
use ummwith_client.Segment.Manager.{Manager}
use ummwith_client.Segment.Count.{occ, without}
use ummwith_client.Segment.Invariant.{IsValid}
use ummwith_client.Segment.Release.{release-IsValid}
use ummwith_client.VirtualMedia.Media as Media
use ummwith_client.VirtualMedia.Media.{VirtualMedia}
use ummwith_client.VirtualMedia.Writes.{AllValid, put-AllValid, get_elem?-lt}
use ummwith_client.SparseKv.Store.{
  Store, Key, same_key, eq_ℤ, cached, drop_key, release_entry, release_token,
}
use ummwith_client.SparseKv.Stale.{locate_inversion}

same_key-≡ : (a b : Key) → same_key a b ≡ true → a ≡ b
same_key-≡ (l, t) (k, u) h =
    λ i. (eq_ℤ-≡ l k (ground (arith, h)) i, eq_ℤ-≡ t u (ground (arith, h)) i)
  where
    eq_ℤ-≡ : (a b : ℤ) → eq_ℤ a b ≡ true → a ≡ b
    eq_ℤ-≡ (pos a) (pos b) e = ap pos (ground (arith, e))
    eq_ℤ-≡ (pos a) (negsuc b) e = cc
    eq_ℤ-≡ (negsuc a) (pos b) e = cc
    eq_ℤ-≡ (negsuc a) (negsuc b) e = ap negsuc (ground (arith, e))

-- The cache has the bytes of all tokens but one.
abbrev pub Without : Key → List (Key × Bytes) → List (Key × Bytes) → Type 0
Without key old new = (k : Key) → cached k new ≡ (if same_key key k then none else cached k old)

cached-drop_key : (key : Key) (cache : List (Key × Bytes)) → Without key cache (drop_key key cache)
unfolding cached drop_key
cached-drop_key key [] k = elim (Bool-cases (same_key key k)) [
  | inl e ↦ rw e refl
  | inr e ↦ rw e refl
]
cached-drop_key key ((a, unit) ∷ rest) k =
    let later = cached-drop_key key rest k in
    elim (Bool-cases (same_key a key)) [
      | inl e ↦
          let same : same_key a k ≡ same_key key k =
            ap (λ (x : Key). same_key x k) (same_key-≡ a key e) in
          rw (e, same, later)
            (elim (Bool-cases (same_key key k)) [ inl f ↦ rw f refl | inr f ↦ rw f refl ])
      | inr e ↦ elim (Bool-cases (same_key key k)) [
        | inl f ↦
            let same : same_key a k ≡ same_key a key = ap (same_key a) (sym (same_key-≡ key k f)) in
            rw (e, same, e, later, f) refl
        | inr f ↦
            rw (e, f)
              (elim (Bool-cases (same_key a k)) [
                | inl g ↦ rw g refl
                | inr g ↦ rw (g, later, f) refl
              ])
      ]
    ]

-- The live offsets after offset `off` of device `d` was released.
abbrev pub without_live : (ℕ → List ℕ) → ℕ → ℕ → ℕ → List ℕ
without_live live d off k = if k == d then without off (live k) else live k

module _ (lib : UmmLib) (live : ℕ → List ℕ) (v : VirtualMedia) (d off : ℕ) (n : Manager) where
  media_release_lem :
      (dev : lib.Dev) (n' : Manager)
      → v.closed ≡ false
      → get_elem? v.mgrs d ≡ some n
      → Segment.release n off ≡ ok n'
      → Media.media_release lib (pos d) off (v, dev)
        ≡ (ok tt, (record v { mgrs = set v.mgrs d n' }, dev))
  unfolding Media.media_release
  media_release_lem dev n' opened found released =
      let inside : ltb d (length v.mgrs) ≡ true =
        lt→ltb d (length v.mgrs) (get_elem?-lt v.mgrs d n found) in
      ground arith

  -- The release of a live unit through an open media.
  pub media_release-AllValid :
      (dev : lib.Dev)
      → AllValid live v
      → v.closed ≡ false
      → get_elem? v.mgrs d ≡ some n
      → 0 < occ off (live d)
      → (v' : VirtualMedia) × (Media.media_release lib (pos d) off (v, dev) ≡ (ok tt, (v', dev)))
        × AllValid (without_live live d off) v'
        × (occ off (without_live live d off d) ≡ 0)
  media_release-AllValid dev all opened found alive =
      let (n', released, valid, gone) = release-IsValid (all d n found) off alive in
      (
        record v { mgrs = set v.mgrs d n' },
        media_release_lem dev n' opened found released,
        put-AllValid lib live v d n n' (without_live live d off) all found
            (subst (IsValid n') (sym here) valid) others,
        ap (occ off) here ∙ gone,
      )
    where
      here : without_live live d off d ≡ without off (live d)
      here = ground arith

      others : (k : ℕ) → k ≢ d → without_live live d off k ≡ live k
      others k h = ground arith

release_entry_lem :
    (lib : UmmLib) (s : Store) (v v' : VirtualMedia) (dev : lib.Dev) (l t d off e : ℕ)
    (table : SlotTable)
    → entry_offset e ≡ off
    → Strategy.locate v.placement (pos l, pos t) ≡ ok d
    → Slots.invalidate s.table (pos l) (pos t) ≡ ok table
    → Media.media_release lib (pos d) off (v, dev) ≡ (ok tt, (v', dev))
    → release_entry lib true (pos l) (pos t) e (s, (v, dev))
      ≡ (ok tt, (record s { table = table; cache = drop_key (pos l, pos t) s.cache }, (v', dev)))
unfolding release_entry
release_entry_lem lib s v v' dev l t d off e table offset place cleared released =
    rw (offset, place, cleared, released) refl

-- The release of a token that is offloaded, through an open media, succeeds: its entry is cleared
-- and no other, the read cache has its bytes no more and those of all other tokens as before, and its
-- offset is no longer live on the device of the key, whose manager stays well-formed, as do the others.
pub release_token_lem :
    (lib : UmmLib) (live : ℕ → List ℕ) (s : Store) (v : VirtualMedia) (dev : lib.Dev)
    (l t d off : ℕ) (n : Manager)
    → Updates.IsValid s.table
    → AllValid live v
    → v.closed ≡ false
    → Slots.locate s.table (pos l) (pos t) ≡ ok (off, flag_valid)
    → Strategy.locate v.placement (pos l, pos t) ≡ ok d
    → get_elem? v.mgrs d ≡ some n
    → 0 < occ off (live d)
    → (table : SlotTable) × (v' : VirtualMedia) × (cache : List (Key × Bytes)) × (release_token lib
          (pos l)
          (pos t)
          (s, (v, dev))
        ≡ (ok tt, (record s { table = table; cache = cache }, (v', dev))))
      × Without (pos l, pos t) s.cache cache
      × (Slots.get table (pos l) (pos t) ≡ ok 0)
      × SameElsewhere l t s.table table
      × Updates.IsValid table
      × AllValid (without_live live d off) v'
      × (occ off (without_live live d off d) ≡ 0)
unfolding release_token
release_token_lem lib live s v dev l t d off n valid all opened located place found alive =
    let (e, got, flags, offset, hl, ht) = locate_inversion s.table l t off flag_valid located in
    let (table, cleared, valid', zero_now, same) = invalidate_lem valid l t hl ht in
    let (v', released, all', gone) =
      media_release-AllValid lib live v d off n dev all opened found alive in
    (
      table,
      v',
      drop_key (pos l, pos t) s.cache,
      rw (got, flags)
          (release_entry_lem lib s v v' dev l t d off e table offset place cleared released),
      cached-drop_key (pos l, pos t) s.cache,
      zero_now,
      same,
      valid',
      all',
      gone,
    )
