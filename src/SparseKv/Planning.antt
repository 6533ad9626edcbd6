-- ===== src/SparseKv/Planning.antt =====
-- `PlanView` and `plan` of bmpclient/sparse_kv/store.py.
use ummwith_client.Prelude.{
  ℕ, suc, ◌+◌, ◌*◌, true, false, not, Option, none, some, List, [], ◌∷◌, ltb, length, map, Result,
  ok, err, value_error, index_error, raise_if,
}
use ummwith_client.Prelude.Action.{Action, lift, pure, gets, modify, ◌>>=◌, ◌>>◌}
use ummwith_client.Prelude.Int.{ℤ, pos, pos_part, nat_below}
use ummwith_client.Prelude.Splice.{splice, slice}
use ummwith_client.Umm.{Bytes, UmmLib}
use ummwith_client.Strategy as Strategy
use ummwith_client.SlotTable as Slots
use ummwith_client.SlotTable.{SlotTable}
use ummwith_client.SlotTable.Entry.{entry_offset}
use ummwith_client.VirtualMedia.Media as Media
use ummwith_client.VirtualMedia.Media.{VirtualMedia}
use ummwith_client.SparseKv.Layout.{
  header_size, entry_size, header_fields, entry_fields, entry_widths, pack, unpack,
}
use ummwith_client.SparseKv.Store as Store
use ummwith_client.SparseKv.Store.{Store, State, Key, entry_valid}

abbrev pub flag_disk : ℕ
flag_disk = 0

abbrev pub flag_host_ready : ℕ
flag_host_ready = 1

-- `PlanView`
pub record PlanView : Type 0 where
  pub buf : Bytes
  pub count : ℕ
  pub layer_id : ℤ
  pub max_topk : ℕ
  pub unit_size : ℕ

-- `PlanView.entry`
unfoldable pub entry : PlanView → ℤ → Result (List ℕ)
entry v i = elim (nat_below index_error i v.count) [
  | err e ↦ err e
  | ok n ↦ ok (unpack entry_widths (slice v.buf (header_size + n * entry_size) entry_size))
]

-- `zip(entries, devices)`
abbrev pub zip : List ℕ → List ℕ → List (ℕ × ℕ)
zip [] ds = []
zip (e ∷ es) [] = []
zip (e ∷ es) (d ∷ ds) = (e, d) ∷ zip es ds

abbrev pub keys_of : ℤ → List ℤ → List Key
keys_of layer tokens = map (λ t. (layer, t)) tokens

abbrev pub view_of : Store → ℕ → ℤ → PlanView
view_of s count layer = record {
  buf = s.desc_buf;
  count = count;
  layer_id = layer;
  max_topk = s.max_topk;
  unit_size = s.unit_size;
}

module _ (lib : UmmLib) where
  -- The unit from the write buffer into the staging buffer; the entry's flag.
  unfoldable pub stage : ℕ → Option Bytes → Action (State lib) ℕ
  stage dst none = pure flag_disk
  stage dst (some unit) =
      modify (λ s. (record s.0 { staging = splice s.0.staging dst unit }, s.1))
      >> pure flag_host_ready

  -- The flag of an entry, once the unit was staged if it is still in the write buffer.
  unfoldable pub stage_buffered : ℤ → ℕ → ℕ → Action (State lib) ℕ
  unfolding stage
  stage_buffered d off dst = do
    buffered ← Store.media lib (Media.media_is_buffered lib d off)
    elim buffered [
      | false ↦ pure flag_disk
      | true ↦ do unit ← Store.media lib (Media.read_buffered lib d off); stage dst unit
    ]

  -- `pack_into`
  unfoldable pub pack_into : ℕ → List (ℕ × ℕ) → Action (State lib) (Unit {0})
  pack_into at fields = do
    bytes ← lift (pack fields)
    modify (λ s. (record s.0 { desc_buf = splice s.0.desc_buf at bytes }, s.1))

  -- One round of the loop of `plan`: entry `i`, for table entry `e` on device `d`.
  unfoldable pub plan_entry : ℕ → ℕ → ℕ → Action (State lib) (Unit {0})
  unfolding stage_buffered pack_into
  plan_entry i e d = do
    lift (raise_if (not (entry_valid e)) value_error)
    size ← gets (λ s. s.0.unit_size)
    flags ← stage_buffered (pos d) (entry_offset e) (i * size)
    base ← Store.media lib (Media.extent_base lib (pos d))
    pack_into (header_size + i * entry_size)
        (entry_fields d flags (base + entry_offset e) size (i * size))

  unfoldable pub plan_entries : ℕ → List (ℕ × ℕ) → Action (State lib) (Unit {0})
  unfolding plan_entry
  plan_entries i [] = pure tt
  plan_entries i ((e, d) ∷ rest) = plan_entry i e d >> plan_entries (suc i) rest

  -- `plan`
  unfoldable pub plan : ℤ → List ℤ → Action (State lib) PlanView
  unfolding plan_entries pack_into
  plan layer tokens = do
    s ← gets (λ s. s)
    lift (raise_if (ltb s.0.max_topk (length tokens)) value_error)
    let devices = Strategy.locate_batch s.1.0.placement (keys_of layer tokens)
    entries ← lift (Slots.gather s.0.table layer tokens)
    plan_entries 0 (zip entries devices)
    pack_into 0 (header_fields (length tokens) (pos_part layer))
    s' ← gets (λ s. s.0)
    pure (view_of s' (length tokens) layer)
