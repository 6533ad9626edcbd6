-- ===== src/SparseKv/Stale.antt =====
-- `fetch` of a token that is in the read cache.
use ummwith_client.Prelude.{
  ℕ, ◌≤◌, ◌<◌, ◌≡◌, refl, subst, ap, ◌∙◌, Bool, true, false, Option, none, some, List, [], ◌∷◌,
  arith, length, get_elem?, ok, ltb,
}
use ummwith_client.Prelude.Int.{ℤ, pos}
use ummwith_client.Prelude.Splice.{splice}
use ummwith_client.Umm.{Bytes, UmmLib}
use ummwith_client.Strategy as Strategy
use ummwith_client.SlotTable as Slots
use ummwith_client.SlotTable.{SlotTable}
use ummwith_client.SlotTable.Entry.{entry_flags, entry_offset, flag_valid}
use ummwith_client.SlotTable.Grid.{cell}
use ummwith_client.SlotTable.Updates as Updates
use ummwith_client.SlotTable.Reads.{get_each, gather-get_each}
use ummwith_client.Segment.Manager.{Manager}
use ummwith_client.VirtualMedia.Media as Media
use ummwith_client.VirtualMedia.Writes.{AllValid}
use ummwith_client.SparseKv.Offloads.{Stored, offload_unit-Stored}
use ummwith_client.SparseKv.Store.{Store, offload_unit, cached, entry_valid}
use ummwith_client.SparseKv.Fetch.{fetch, fetch_loop, copy_cached, read_wanted}

-- A read of the table that returns was in range, and says what `gather` returns.
pub locate_inversion :
    (table : SlotTable) (l t o f : ℕ)
    → Slots.locate table (pos l) (pos t) ≡ ok (o, f)
    → (e : ℕ) × (Slots.get table (pos l) (pos t) ≡ ok e)
      × (entry_flags e ≡ f)
      × (entry_offset e ≡ o)
      × (l < table.num_layers)
      × (t < table.max_tokens)
unfolding Slots.locate Slots.get
locate_inversion table l t o f h =
    by_parts (ltb l table.num_layers) (ltb t table.max_tokens) (cell table.layers l t) refl refl
      refl
  where
    by_parts :
        (b c : Bool) (q : Option ℕ)
        → ltb l table.num_layers ≡ b
        → ltb t table.max_tokens ≡ c
        → cell table.layers l t ≡ q
        → (e : ℕ) × (Slots.get table (pos l) (pos t) ≡ ok e)
          × (entry_flags e ≡ f)
          × (entry_offset e ≡ o)
          × (l < table.num_layers)
          × (t < table.max_tokens)
    by_parts false c q g i j = absurd (ground arith)
    by_parts true false q g i j = absurd (ground arith)
    by_parts true true none g i j = absurd (ground arith)
    by_parts true true (some e) g i j =
        (e, ground arith, ground arith, ground arith, ground arith, ground arith)

pub gather_one :
    {table : SlotTable} (l t o f : ℕ)
    → Updates.IsValid table
    → Slots.locate table (pos l) (pos t) ≡ ok (o, f)
    → (e : ℕ) × (Slots.gather table (pos l) (pos t ∷ []) ≡ ok (e ∷ [])) × (entry_flags e ≡ f)
gather_one {table} l t o f v h =
    let (e, got, flags, offset, hl, ht) = locate_inversion table l t o f h in
    (e, gather-get_each v l hl (t ∷ []) (ht, tt) ∙ unfold get_each in ground arith, flags)

module _ (lib : UmmLib) (s : Store) (m : Media.State lib) (layer t : ℤ) (out unit : Bytes) where
  -- A valid token in the cache is copied from there, and nothing else happens.
  pub fetch-cached :
      (e : ℕ)
      → Slots.gather s.table layer (t ∷ []) ≡ ok (e ∷ [])
      → entry_valid e ≡ true
      → cached (layer, t) s.cache ≡ some unit
      → s.unit_size ≤ length out
      → fetch lib layer (t ∷ []) ((s, m), out ∷ []) ≡ (ok tt, ((s, m), splice out 0 unit ∷ []))
  unfolding fetch Strategy.locate_batch fetch_loop copy_cached read_wanted cached
  fetch-cached e found valid held room =
      let wide : ltb (length out) s.unit_size ≡ false = ground arith in
      rw (found, valid, held, wide) refl

-- When a unit is offloaded for a token that is in the read cache, the table and the media have the
-- new unit, but a `fetch` of the token returns the old one.
pub offload_stale :
    (lib : UmmLib) (live : ℕ → List ℕ) (l t : ℕ) (unit old out : Bytes) (s s' : Store)
    (m m' : Media.State lib)
    → Updates.IsValid s.table
    → l < s.table.num_layers
    → t < s.table.max_tokens
    → AllValid live m.0
    → length unit ≡ m.0.merging.unit_size
    → ((d : ℕ) (n : Manager) → get_elem? m.0.mgrs d ≡ some n → n.unit_size ≡ m.0.merging.unit_size)
    → cached (pos l, pos t) s.cache ≡ some old
    → s.unit_size ≤ length out
    → offload_unit lib (pos l) t unit (s, m) ≡ (ok tt, (s', m'))
    → (d : ℕ) × (off : ℕ) × (Slots.locate s'.table (pos l) (pos t) ≡ ok (off, flag_valid))
      × (Media.read_buffered lib (pos d) off m' ≡ (ok (some unit), m'))
      × (fetch lib (pos l) (pos t ∷ []) ((s', m'), out ∷ [])
          ≡ (ok tt, ((s', m'), splice out 0 old ∷ [])))
offload_stale lib live l t unit old out s s' m m' v hl ht all sized same held room done =
    let (d, off, place, located, reads, new, all', v', other, kept, units) =
      subst (Stored lib live l t unit s v hl ht) done
        (offload_unit-Stored lib live l t unit s v hl ht m all sized same) in
    let (e, found, flags) = gather_one l t off flag_valid v' located in
    (
      d,
      off,
      located,
      reads,
      fetch-cached lib s' m' (pos l) (pos t) out old e found (rw flags refl)
          (ap (cached (pos l, pos t)) kept ∙ held) (omega arith),
    )
