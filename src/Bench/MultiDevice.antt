-- ===== src/Bench/MultiDevice.antt =====
-- bmpclient/bench/multi_device.py: where the rows of a layer are placed, and the bytes that each device
-- must have for a request. The dict of lengths is the list of its entries ((request, layer), length);
-- `segment` and `count` are positive.
use ummwith_client.Prelude.{
  ℕ, ◌+◌, ◌-◌, ◌*◌, ◌/◌, ◌%◌, max, ltb, Bool, false, none, some, List, [], ◌∷◌, if◌then◌else◌,
  get_elem?, set, replicate, map, Result, ok, err, value_error, index_error,
}
use ummwith_client.Prelude.Int.{ℤ, pos, negsuc}
use ummwith_client.Prelude.Dict.{dict_get, dict_set}
use ummwith_client.Strategy as Strategy
use ummwith_client.Strategy.{PositionHash}

abbrev pub page : ℕ
page = 4096

-- `OriginalLayerHash.locate`: the hash of the layer's original number.
unfoldable pub original_locate : PositionHash → List ℕ → ℕ → ℤ → Result ℕ
original_locate hash layers layer token = elim (get_elem? layers layer) [
  | none ↦ err index_error
  | some original ↦ Strategy.locate hash (pos original, token)
]

-- `LayerPlacement`: the lengths and the original numbers of the layers.
pub record LayerPlacement : Type 0 where
  pub num_devices : ℕ
  pub lengths : List ℕ
  pub original_layers : List ℕ

-- `0 <= token < length`
abbrev pub is_inside : ℤ → ℕ → Bool
is_inside (pos token) n = ltb token n
is_inside (negsuc token) n = false

-- `LayerPlacement.locate`
unfoldable pub layer_locate : LayerPlacement → ℕ → ℤ → Result ℕ
layer_locate p layer token = elim (get_elem? p.lengths layer) [
  | none ↦ err index_error
  | some n ↦
      if is_inside token n
      then elim (get_elem? p.original_layers layer) [
        | none ↦ err index_error
        | some original ↦ ok (original % p.num_devices)
      ]
      else err value_error
]

abbrev pub Lengths : Type 0
Lengths = List ((ℕ × ℕ) × ℕ)

abbrev pub Rows : Type 0
Rows = List (ℕ × List ℕ)

-- `{req: [0] * count for req, _ in lengths}`
unfoldable pub no_rows : ℕ → Lengths → Rows
no_rows count [] = []
no_rows count (((req, layer), n) ∷ rest) = dict_set req (replicate count 0) (no_rows count rest)

-- `for d, n in enumerate(counts): rows[req][d] += n`
unfoldable pub add_counts : List ℕ → List ℕ → List ℕ
add_counts [] counts = []
add_counts (x ∷ xs) [] = x ∷ xs
add_counts (x ∷ xs) (n ∷ counts) = (x + n) ∷ add_counts xs counts

-- The counts of one layer.
unfoldable pub layer_counts : ℕ → ℕ → ℕ → List ℕ
layer_counts count layer n = set (replicate count 0) (layer % count) n

unfoldable pub add_layer : ℕ → ℕ → List ℕ → Rows → Rows
unfolding add_counts
add_layer count req counts rows = elim (dict_get req rows) [
  | none ↦ rows
  | some xs ↦ dict_set req (add_counts xs counts) rows
]

-- The loop of `layer_capacities`; the order of the entries does not matter to the sums.
unfoldable pub add_layers : ℕ → Lengths → Rows → Rows
unfolding add_layer layer_counts
add_layers count [] rows = rows
add_layers count (((req, layer), n) ∷ rest) rows =
    add_layers count rest (add_layer count req (layer_counts count layer n) rows)

-- `max(segment, ((n * PAGE + segment - 1) // segment) * segment)`
unfoldable pub capacity_for : ℕ → ℕ → ℕ
capacity_for segment n = max segment ((n * page + segment - 1) / segment * segment)

-- `layer_capacities`
unfoldable pub layer_capacities : ℕ → Lengths → ℕ → Rows × Rows
unfolding no_rows add_layers capacity_for
layer_capacities segment lengths count =
    let rows = add_layers count lengths (no_rows count lengths) in
    (map (λ (entry : ℕ × List ℕ). (entry.0, map (capacity_for segment) entry.1)) rows, rows)
