-- ===== src/SlotTable.antt =====
-- bmpclient/sparse_kv/slot_table.py: packed entries, and the table (layer, token) -> entry.
-- Python's ints are `ℤ` where the source tests their sign. The write lock only serialises the
-- writers, so a method is one function on the table.
pub mod Entry
pub mod Grid
pub mod Updates
pub mod Reads
use ummwith_client.Prelude.{
  ℕ, zero, suc, ◌≡◌, Bool, true, false, ◌||◌, List, [], ◌∷◌, replicate, Result, ok, value_error,
  raise_if, ◌>>=◌, ◌>>◌,
}
use ummwith_client.Prelude.Int.{ℤ, pos, negsuc, pos_part, nat_below, or_index_error, py_index}
use Entry.{pack_entry, entry_offset, entry_flags}
use Grid.{cell, write}

-- `class SlotTable`; `layers` holds one array of `max_tokens` entries for each layer.
pub record SlotTable : Type 0 where
  pub num_layers : ℕ
  pub max_tokens : ℕ
  pub layers : List (List ℕ)

-- `x <= 0`
abbrev pub not_positive : ℤ → Bool
not_positive (pos zero) = true
not_positive (pos (suc n)) = false
not_positive (negsuc n) = true

unfoldable pub init : ℤ → ℤ → Result SlotTable
init num_layers max_tokens = do
  raise_if (not_positive num_layers || not_positive max_tokens) value_error
  let n = pos_part num_layers
  let m = pos_part max_tokens
  ok (record { num_layers = n; max_tokens = m; layers = replicate n (replicate m 0) })

-- `_check`, which hands the two indices on as numbers.
unfoldable pub check : SlotTable → ℤ → ℤ → Result (ℕ × ℕ)
check s layer_id token_idx = do
  l ← nat_below value_error layer_id s.num_layers
  t ← nat_below value_error token_idx s.max_tokens
  ok (l, t)

unfoldable pub set : SlotTable → ℤ → ℤ → ℤ → ℤ → Result SlotTable
unfolding check
set s layer_id token_idx offset flags = do
  (l, t) ← check s layer_id token_idx
  e ← pack_entry offset flags
  ok (record s { layers = write s.layers l t e })

unfoldable pub invalidate : SlotTable → ℤ → ℤ → Result SlotTable
unfolding check
invalidate s layer_id token_idx = do
  (l, t) ← check s layer_id token_idx
  ok (record s { layers = write s.layers l t 0 })

unfoldable pub get : SlotTable → ℤ → ℤ → Result ℕ
unfolding check
get s layer_id token_idx = do
  (l, t) ← check s layer_id token_idx
  or_index_error (cell s.layers l t)

-- `[layer[t] for t in token_indices]`
unfoldable pub gather_row : List ℕ → List ℤ → Result (List ℕ)
gather_row layer [] = ok []
gather_row layer (t ∷ ts) = do e ← py_index layer t; es ← gather_row layer ts; ok (e ∷ es)

-- Only the layer is checked here; a token is a plain index of the array.
unfoldable pub gather : SlotTable → ℤ → List ℤ → Result (List ℕ)
unfolding gather_row
gather s layer_id token_indices = do
  l ← nat_below value_error layer_id s.num_layers
  layer ← py_index s.layers (pos l)
  gather_row layer token_indices

unfoldable pub locate : SlotTable → ℤ → ℤ → Result (ℕ × ℕ)
unfolding get
locate s layer_id token_idx = do e ← get s layer_id token_idx; ok (entry_offset e, entry_flags e)
