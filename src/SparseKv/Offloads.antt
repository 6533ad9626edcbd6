-- ===== src/SparseKv/Offloads.antt =====
-- `offload` of one unit, over the media and the slot table; and the read cache, which it does not
-- touch.
use ummwith_client.Prelude.{
  ℕ, ◌<◌, ◌≡◌, refl, sym, subst, some, List, arith, length, get_elem?, Result, ok, err, inl, inr,
  dec_lt, ◌⊎◌, ◌≤◌, Error, value_error,
}
use ummwith_client.Prelude.Action.{continue}
use ummwith_client.Prelude.Int.{pos}
use ummwith_client.Umm.{Bytes, UmmLib}
use ummwith_client.Strategy as Strategy
use ummwith_client.SlotTable as Slots
use ummwith_client.SlotTable.{SlotTable}
use ummwith_client.SlotTable.Entry.{max_offset, flag_valid}
use ummwith_client.SlotTable.Updates as Updates
use ummwith_client.SlotTable.Updates.{SameElsewhere, set_lem, set_refuses}
use ummwith_client.Segment.Manager.{Manager}
use ummwith_client.Segment.Count.{occ}
use ummwith_client.VirtualMedia.Media as Media
use ummwith_client.VirtualMedia.Writes.{
  AllValid, with_live, Written, Unwritten, media_write-Written,
}
use ummwith_client.VirtualMedia.Media.{VirtualMedia}
use ummwith_client.SparseKv.Store.{Store, State, offload_unit, on_table, replace_table}

module _ (lib : UmmLib) (live : ℕ → List ℕ) (l t : ℕ) (unit : Bytes) (s : Store)
    (valid : Updates.IsValid s.table) (hl : l < s.table.num_layers)
    (ht : t < s.table.max_tokens) where
  -- Why the offload of a unit raises: as the write does, or the offset that the write gave is too large for the table.
  abbrev pub Unstored : Error → VirtualMedia → Type 0
  Unstored e v =
      (AllValid live v × Unwritten lib (pos l, pos t) e v)
      ⊎ ((d : ℕ) × (off : ℕ) × (Strategy.locate v.placement (pos l, pos t) ≡ ok d)
          × (max_offset ≤ off)
          × (occ off (live d) ≡ 0)
          × AllValid (with_live live d off) v
          × (e ≡ value_error))

  -- After the offload of a unit: if it returned, the table has the offset of the unit on the device
  -- of the key, where it reads back; no other entry has changed, nor has the read cache. If it
  -- raised, neither the table nor the cache has changed, and the cause is as `Unstored`. The managers
  -- are well-formed.
  abbrev pub Stored : Result (Unit {0}) × State lib → Type 0
  Stored (err e, (s', (v, dev))) = (s'.table ≡ s.table) × (s'.cache ≡ s.cache) × Unstored e v
  Stored (ok _, (s', (v, dev))) =
      (d : ℕ) × (off : ℕ) × (Strategy.locate v.placement (pos l, pos t) ≡ ok d)
      × (Slots.locate s'.table (pos l) (pos t) ≡ ok (off, flag_valid))
      × (Media.read_buffered lib (pos d) off (v, dev) ≡ (ok (some unit), (v, dev)))
      × (occ off (live d) ≡ 0)
      × AllValid (with_live live d off) v
      × Updates.IsValid s'.table
      × SameElsewhere l t s.table s'.table
      × (s'.cache ≡ s.cache)
      × (s'.unit_size ≡ s.unit_size)

  set-Stored :
      (off d : ℕ) (m : Media.State lib)
      → Strategy.locate m.0.placement (pos l, pos t) ≡ ok d
      → AllValid (with_live live d off) m.0
      → occ off (live d) ≡ 0
      → Media.read_buffered lib (pos d) off m ≡ (ok (some unit), m)
      → Stored (
          on_table lib (λ table. Slots.set table (pos l) (pos t) (pos off) (pos flag_valid)) (s, m))
  set-Stored off d m place all new reads = elim (dec_lt off max_offset) [
    | yes small ↦
        let (table, done, valid', located, same) =
          set_lem valid l t hl ht off flag_valid small (omega arith) in
        subst (λ r. Stored (replace_table lib r (s, m))) (sym done)
          (d, off, place, located, reads, new, all, valid', same, refl, refl)
    | no large ↦ elim (set_refuses s.table (pos l) (pos t) (pos off) (pos flag_valid)) [
      | inl refused ↦
          subst (λ r. Stored (replace_table lib r (s, m))) (sym refused)
            (refl, refl, inr (d, off, place, omega (arith, large), new, all, refl))
      | inr accepted ↦ absurd (ground arith)
    ]
  ]

  Written-Stored :
      (r : Result ℕ × Media.State lib)
      → Written lib live (pos l, pos t) unit r
      → Stored (
          continue r.0
            (λ off.
              on_table lib (λ table. Slots.set table (pos l) (pos t) (pos off) (pos flag_valid)))
            (s, r.1))
  Written-Stored (err e, m) (all, cause) = (refl, refl, inl (all, cause))
  Written-Stored (ok off, m) (d, place, all, new, reads) = set-Stored off d m place all new reads

  -- The offload of a unit of the right size, on managers of that unit size, for a layer and a token
  -- of the table: its outcome is as `Stored`.
  pub offload_unit-Stored :
      (m : Media.State lib)
      → AllValid live m.0
      → length unit ≡ m.0.merging.unit_size
      → ((d : ℕ) (n : Manager)
          → get_elem? m.0.mgrs d ≡ some n
          → n.unit_size ≡ m.0.merging.unit_size)
      → Stored (offload_unit lib (pos l) t unit (s, m))
  unfolding offload_unit
  offload_unit-Stored m all sized same =
      Written-Stored (Media.media_write lib (pos l, pos t) unit m)
        (media_write-Written lib live (pos l, pos t) unit m.0 all m.1 sized same)
