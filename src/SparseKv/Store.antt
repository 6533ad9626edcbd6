-- ===== src/SparseKv/Store.antt =====
-- `SparseKVStore` of bmpclient/sparse_kv/store.py: the state, `offload`, `flush`, `release`
-- and `close`. Layers and tokens are integers, since the code tests their sign. The write lock
-- makes `offload` one step.
use Prim.Native.Nat.{bit_and}
use ummwith_client.Prelude.{
  ℕ, zero, suc, ◌+◌, ◌*◌, Bool, true, false, ◌&&◌, not, Option, none, some, List, [], ◌∷◌, ltb,
  ◌==◌, if◌then◌else◌, length, replicate, Result, ok, err, value_error, raise_if,
}
use ummwith_client.Prelude.Action.{Action, continue, lift, pure, gets, modify, ◌>>=◌, ◌>>◌}
use ummwith_client.Prelude.Int.{ℤ, pos, negsuc, pos_part, nat_below}
use ummwith_client.Prelude.Splice.{slice}
use ummwith_client.Umm.{Bytes, UmmLib}
use ummwith_client.Strategy as Strategy
use ummwith_client.SlotTable as Slots
use ummwith_client.SlotTable.{SlotTable}
use ummwith_client.SlotTable.Entry.{entry_offset, entry_flags, flag_valid}
use ummwith_client.VirtualMedia.Media as Media
use ummwith_client.VirtualMedia.Media.{VirtualMedia}
use ummwith_client.SparseKv.Layout.{header_size, entry_size}

-- `KVBlockRef` of bmpclient/sparse_kv/vllm_adapter.py.
pub record KvBlockRef : Type 0 where
  pub layer_id : ℤ
  pub block_idx : ℕ
  pub token_start : ℤ
  pub token_count : ℕ
  pub buffer : Bytes

-- The keys of the read cache: layer and token.
abbrev pub Key : Type 0
Key = ℤ × ℤ

pub record Store : Type 0 where
  pub num_layers : ℕ
  pub max_tokens : ℕ
  pub max_topk : ℕ
  pub unit_size : ℕ
  pub table : SlotTable
  pub cache : List (Key × Bytes)
  pub closed : Bool
  pub desc_buf : Bytes
  pub staging : Bytes

-- The fields that `__init__` sets.
unfoldable pub new_store : ℕ → ℕ → ℕ → ℕ → SlotTable → Store
new_store num_layers max_tokens max_topk unit_size table = record {
  num_layers = num_layers;
  max_tokens = max_tokens;
  max_topk = max_topk;
  unit_size = unit_size;
  table = table;
  cache = [];
  closed = false;
  desc_buf = replicate (header_size + entry_size * max_topk) 0;
  staging = replicate (max_topk * unit_size) 0;
}

-- `__init__`
unfoldable pub init : VirtualMedia → ℤ → ℤ → ℤ → Result Store
unfolding new_store
init vm num_layers max_tokens max_topk =
    if Slots.not_positive max_topk
    then err value_error
    else elim (Slots.init num_layers max_tokens) [
      | err e ↦ err e
      | ok table ↦ ok (
          new_store (pos_part num_layers) (pos_part max_tokens) (pos_part max_topk)
            vm.merging.unit_size table)
    ]

abbrev pub eq_ℤ : ℤ → ℤ → Bool
eq_ℤ (pos a) (pos b) = a == b
eq_ℤ (pos a) (negsuc b) = false
eq_ℤ (negsuc a) (pos b) = false
eq_ℤ (negsuc a) (negsuc b) = a == b

abbrev pub same_key : Key → Key → Bool
same_key (l, t) (k, u) = eq_ℤ l k && eq_ℤ t u

-- `cache.get(key)`
unfoldable pub cached : Key → List (Key × Bytes) → Option Bytes
cached key [] = none
cached key ((k, unit) ∷ rest) = if same_key k key then some unit else cached key rest

-- `cache.pop(key, None)`; a dict has a key once.
unfoldable pub drop_key : Key → List (Key × Bytes) → List (Key × Bytes)
drop_key key [] = []
drop_key key ((k, unit) ∷ rest) =
    let others = drop_key key rest in if same_key k key then others else (k, unit) ∷ others

-- `cache[key] = unit`
unfoldable pub put_key : Key → Bytes → List (Key × Bytes) → List (Key × Bytes)
put_key key unit [] = (key, unit) ∷ []
put_key key unit ((k, old) ∷ rest) =
    if same_key k key then (k, unit) ∷ rest else (k, old) ∷ put_key key unit rest

-- `entry_flags(e) & FLAG_VALID`
abbrev pub entry_valid : ℕ → Bool
entry_valid e = not (bit_and (entry_flags e) flag_valid == 0)

-- `_check_block`
unfoldable pub check_block : Store → KvBlockRef → Result (Unit {0})
check_block s blk = elim (nat_below value_error blk.layer_id s.num_layers) [
  | err e ↦ err e
  | ok l ↦ elim blk.token_start [
    | negsuc n ↦ err value_error
    | pos start ↦
        if ltb s.max_tokens (start + blk.token_count)
        then err value_error
        else raise_if (ltb (length blk.buffer) (blk.token_count * s.unit_size)) value_error
  ]
]

module _ (lib : UmmLib) where
  -- The store beside the media and the devices.
  abbrev pub State : Type 0
  State = Store × Media.State lib

  abbrev pub media : {A : Type 0} → Action (Media.State lib) A → Action State A
  media f (s, m) = let (r, m') = f m in (r, (s, m'))

  abbrev pub replace_table : Result SlotTable → Action State (Unit {0})
  replace_table (err e) s = (err e, s)
  replace_table (ok table) (s, m) = (ok tt, (record s { table = table }, m))

  -- A method of the table that changes it.
  abbrev pub on_table : (SlotTable → Result SlotTable) → Action State (Unit {0})
  on_table f (s, m) = replace_table (f s.table) (s, m)

  -- One round of the inner loop of `offload`: the unit of token `t`.
  unfoldable pub offload_unit : ℤ → ℕ → Bytes → Action State (Unit {0})
  offload_unit layer t unit = do
    offset ← media (Media.media_write lib (layer, pos t) unit)
    on_table (λ table. Slots.set table layer (pos t) (pos offset) (pos flag_valid))

  -- The inner loop, from unit `i` on for `n` units.
  unfoldable pub offload_units : ℕ → KvBlockRef → ℕ → ℕ → Action State (Unit {0})
  unfolding offload_unit
  offload_units size blk i zero = pure tt
  offload_units size blk i (suc n) =
      offload_unit blk.layer_id (pos_part blk.token_start + i) (slice blk.buffer (i * size) size)
      >> offload_units size blk (suc i) n

  -- `offload`
  unfoldable pub offload : List KvBlockRef → Action State (Unit {0})
  unfolding offload_units
  offload [] = pure tt
  offload (blk ∷ blocks) = do
    s ← gets (λ s. s.0)
    lift (check_block s blk)
    offload_units s.unit_size blk 0 blk.token_count
    offload blocks

  -- `flush`
  abbrev pub store_flush : Action State (Unit {0})
  store_flush = media (Media.media_flush lib)

  -- One round of `release`: what it does for a valid entry, and for another.
  unfoldable pub release_entry : Bool → ℤ → ℤ → ℕ → Action State (Unit {0})
  release_entry false layer t e = pure tt
  release_entry true layer t e = do
    s ← gets (λ s. s)
    d ← lift (Strategy.locate s.1.0.placement (layer, t))
    on_table (λ table. Slots.invalidate table layer t)
    modify (λ s. (record s.0 { cache = drop_key (layer, t) s.0.cache }, s.1))
    media (Media.media_release lib (pos d) (entry_offset e))

  unfoldable pub release_token : ℤ → ℤ → Action State (Unit {0})
  unfolding release_entry
  release_token layer t (s, m) =
      continue (Slots.get s.table layer t) (λ e. release_entry (entry_valid e) layer t e) (s, m)

  -- `release`
  unfoldable pub store_release : ℤ → List ℤ → Action State (Unit {0})
  unfolding release_token
  store_release layer [] = pure tt
  store_release layer (t ∷ ts) = release_token layer t >> store_release layer ts

  -- `close`
  unfoldable pub store_close : Action State (Unit {0})
  store_close (s, m) = elim s.closed [
    | true ↦ (ok tt, (s, m))
    | false ↦ media (Media.media_close lib) (record s { closed = true }, m)
  ]
