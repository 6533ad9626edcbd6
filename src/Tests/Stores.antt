-- ===== src/Tests/Stores.antt =====
-- Runs and instances for the sparse KV store.
use ummwith_client.Prelude.{
  ℕ, zero, suc, ◌≡◌, refl, ap, arith, false, some, [], ◌∷◌, List, ok, err, value_error, subst,
  replicate,
}
use ummwith_client.Prelude.Int.{pos, ◌+ℤ◌}
use ummwith_client.Strategy as Strategy
use ummwith_client.SlotTable as Slots
use ummwith_client.SlotTable.{SlotTable}
use ummwith_client.SlotTable.Entry.{pack_entry, entry_offset, entry_flags, flag_valid}
use ummwith_client.SlotTable.Grid as Grid
use ummwith_client.SlotTable.Updates as Updates
use ummwith_client.SlotTable.Updates.{SameElsewhere}
use ummwith_client.Segment.Manager as Segment
use ummwith_client.Segment.Count.{occ}
use ummwith_client.VirtualMedia.Media as Media
use ummwith_client.VirtualMedia.Media.{VirtualMedia}
use ummwith_client.VirtualMedia.Writes.{AllValid, with_live}
use ummwith_client.SparseKv.Layout.{pack}
use ummwith_client.SparseKv.Store.{
  Store, State, KvBlockRef, Key, cached, offload, offload_unit, offload_units, check_block,
  release_token,
}
use ummwith_client.SparseKv.Planning.{
  plan, plan_entry, plan_entries, stage, stage_buffered, pack_into,
}
use ummwith_client.SparseKv.Fetch.{fetch}
use ummwith_client.SparseKv.Views.{Viewed, plan-Viewed}
use ummwith_client.SparseKv.Offloads.{Stored, offload_unit-Stored}
use ummwith_client.SparseKv.Stale.{offload_stale}
use ummwith_client.SparseKv.Releases.{Without, without_live, release_token_lem}
use ummwith_client.Umm.{Bytes}
use ummwith_client.Segment.Invariant.{IsValid}
use ummwith_client.Tests.Segments.{willing, small, small-IsValid, holding, holding-IsValid}
use ummwith_client.Tests.Media.{virtual_media, all_valid, same_size}

abbrev table : SlotTable
table = record { num_layers = 4; max_tokens = 4; layers = row ∷ row ∷ row ∷ row ∷ [] }
  where
    row : List ℕ
    row = 0 ∷ 0 ∷ 0 ∷ 0 ∷ []

table_built : Slots.init (pos 4) (pos 4) ≡ ok table
unfolding Slots.init
table_built = refl

table-IsValid : Updates.IsValid table
table-IsValid = (Updates.init-IsValid (pos 4) (pos 4) table_built).0

abbrev store : Store
store = record {
  num_layers = 4;
  max_tokens = 4;
  max_topk = 2;
  unit_size = 2;
  table = table;
  cache = ((pos 2, pos 3), 1 ∷ 2 ∷ []) ∷ [];
  closed = false;
  desc_buf = replicate 80 0;
  staging = replicate 4 0;
}

-- The unit 7, 8 of token 3 in layer 2 goes to device 1, at offset 0.
abbrev before : State willing
before = (store, (virtual_media, 0))

offload_run : (offload_unit willing (pos 2) 3 (7 ∷ 8 ∷ []) before).0 ≡ ok tt
unfolding offload_unit Media.media_write Strategy.locate Strategy.device_of Segment.append
    Segment.open_buffer Segment.start_segment Segment.roll_over Segment.place Slots.set pack_entry
    Grid.write ◌+ℤ◌
offload_run = refl

abbrev block : KvBlockRef
block = record {
  layer_id = pos 2;
  block_idx = 0;
  token_start = pos 2;
  token_count = 2;
  buffer = 5 ∷ 6 ∷ 7 ∷ 8 ∷ [];
}

-- Two tokens of a layer, then the plan of them: both are still in the write buffers, and the staging
-- buffer holds their units.
plan_run :
    let planned =
      plan willing (pos 2) (pos 3 ∷ pos 2 ∷ []) (offload willing (block ∷ []) before).1 in
    planned.1.0.staging ≡ 7 ∷ 8 ∷ 5 ∷ 6 ∷ []
unfolding offload check_block offload_units offload_unit Media.media_write Strategy.locate
    Strategy.device_of Segment.append Segment.open_buffer Segment.start_segment Segment.roll_over
    Segment.place Slots.set Slots.gather pack_entry Grid.write ◌+ℤ◌ plan plan_entries plan_entry
    stage_buffered stage pack_into pack Media.media_is_buffered Media.read_buffered
    Media.extent_base Strategy.locate_batch entry_flags entry_offset Segment.is_buffered
    Segment.read_buffer
plan_run = refl

too_many : (plan willing (pos 2) (pos 0 ∷ pos 1 ∷ pos 2 ∷ []) before).0 ≡ err value_error
unfolding plan
too_many = refl

offload_unit-Stored_example :
    Stored willing
      (λ d. [])
      2
      3
      (7 ∷ 8 ∷ [])
      store
      table-IsValid
      (omega arith)
      (omega arith)
      (offload_unit willing (pos 2) 3 (7 ∷ 8 ∷ []) before)
offload_unit-Stored_example =
    offload_unit-Stored willing (λ d. []) 2 3 (7 ∷ 8 ∷ []) store table-IsValid (omega arith)
      (omega arith) (virtual_media, 0) all_valid refl same_size

-- The same unit in the write buffer of device 1, with its entry in the table.
abbrev held_media : VirtualMedia
held_media = record virtual_media { mgrs = small ∷ holding ∷ [] }

abbrev held_table : SlotTable
held_table = record { num_layers = 1; max_tokens = 4; layers = (0 ∷ 1 ∷ 0 ∷ 0 ∷ []) ∷ [] }

held_table-IsValid : Updates.IsValid held_table
held_table-IsValid = record { height = refl; rows = ((refl, omega arith), tt) }

abbrev held_store : Store
held_store = record store { num_layers = 1; table = held_table }

abbrev held_live : ℕ → List ℕ
held_live = with_live (λ d. []) 1 0

held_all : AllValid held_live held_media
held_all zero m e = subst (λ x. IsValid x []) (cc) small-IsValid
held_all (suc zero) m e = subst (λ x. IsValid x (0 ∷ [])) (cc) holding-IsValid
held_all (suc (suc d)) m e = cc

located : Slots.locate held_table (pos 0) (pos 1) ≡ ok (0, flag_valid)
unfolding Slots.locate Slots.get Grid.cell entry_offset entry_flags
located = refl

placed : Strategy.locate held_media.placement (pos 0, pos 1) ≡ ok 1
unfolding Strategy.locate Strategy.device_of ◌+ℤ◌
placed = refl

release_token_lem_example :
    (t : SlotTable) × (v : VirtualMedia) × (cache : List (Key × Bytes)) × (release_token willing
        (pos 0)
        (pos 1)
        (held_store, (held_media, 0))
      ≡ (ok tt, (record held_store { table = t; cache = cache }, (v, 0))))
    × Without (pos 0, pos 1) held_store.cache cache
    × (Slots.get t (pos 0) (pos 1) ≡ ok 0)
    × SameElsewhere 0 1 held_table t
    × Updates.IsValid t
    × AllValid (without_live held_live 1 0) v
    × (occ 0 (without_live held_live 1 0 1) ≡ 0)
unfolding occ
release_token_lem_example =
    release_token_lem willing held_live held_store held_media 0 0 1 1 0 holding held_table-IsValid
      held_all refl located placed refl (omega arith)

plan-Viewed_example :
    Viewed willing
      (held_store, (held_media, 0))
      (pos 0)
      (pos 1 ∷ [])
      (plan willing (pos 0) (pos 1 ∷ []) (held_store, (held_media, 0)))
plan-Viewed_example =
    plan-Viewed willing held_store (held_media, 0) (pos 0) (pos 1 ∷ []) (omega arith)

-- That plan returns: the one entry is for device 1, still in the buffer, of two bytes.
planned : (plan willing (pos 0) (pos 1 ∷ []) (held_store, (held_media, 0))).0 ≡ err value_error → ⊥
unfolding Slots.gather ◌+ℤ◌ plan plan_entries plan_entry stage_buffered stage pack_into pack
    Media.media_is_buffered Media.read_buffered Media.extent_base Strategy.locate_batch
    Strategy.device_of entry_flags entry_offset Segment.is_buffered Segment.read_buffer
planned e = cc

-- Token 3 of layer 2 was in the read cache as 1, 2.
abbrev after : State willing
after = (offload_unit willing (pos 2) 3 (7 ∷ 8 ∷ []) before).1

cached_before : cached (pos 2, pos 3) store.cache ≡ some (1 ∷ 2 ∷ [])
unfolding cached
cached_before = refl

offload_stale_example :
    (d : ℕ) × (off : ℕ) × (Slots.locate after.0.table (pos 2) (pos 3) ≡ ok (off, flag_valid))
    × (Media.read_buffered willing (pos d) off after.1 ≡ (ok (some (7 ∷ 8 ∷ [])), after.1))
    × (fetch willing (pos 2) (pos 3 ∷ []) (after, (0 ∷ 0 ∷ []) ∷ [])
        ≡ (ok tt, (after, (1 ∷ 2 ∷ []) ∷ [])))
offload_stale_example =
    offload_stale willing (λ d. []) 2 3 (7 ∷ 8 ∷ []) (1 ∷ 2 ∷ []) (0 ∷ 0 ∷ []) store after.0
      (virtual_media, 0) after.1 table-IsValid (omega arith) (omega arith) all_valid refl same_size
      cached_before (omega arith) (ap (λ r. (r, after)) offload_run)
