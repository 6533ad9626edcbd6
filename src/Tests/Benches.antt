-- ===== src/Tests/Benches.antt =====
-- Runs and instances for the layouts of a replay over several devices.
use ummwith_client.Prelude.{ℕ, ◌≡◌, refl, arith, some, List, [], ◌∷◌, get_elem?, ok}
use ummwith_client.Prelude.Int.{pos}
use ummwith_client.Prelude.Dict.{dict_get, dict_set}
use ummwith_client.Bench.MultiDevice.{
  Lengths, layer_locate, layer_capacities, no_rows, add_layers, add_layer, layer_counts, add_counts,
  capacity_for,
}
use ummwith_client.Bench.Sums.{placed}
use ummwith_client.Bench.Capacities.{IsEnough, layer_capacities_lem}

-- Request 7 has three layers, request 8 one.
abbrev lengths : Lengths
lengths = ((7, 0), 3) ∷ ((7, 1), 5) ∷ ((7, 2), 4) ∷ ((8, 1), 1) ∷ []

capacities_run :
    layer_capacities 8192 lengths 2
    ≡ ((8, 8192 ∷ 8192 ∷ []) ∷ (7, 32768 ∷ 24576 ∷ []) ∷ [], (8, 0 ∷ 1 ∷ []) ∷ (7, 7 ∷ 5 ∷ []) ∷ [])
unfolding layer_capacities no_rows add_layers add_layer layer_counts add_counts capacity_for
    dict_get dict_set
capacities_run = refl

locate_run :
    layer_locate
      (record { num_devices = 2; lengths = 3 ∷ 5 ∷ []; original_layers = 4 ∷ 7 ∷ [] })
      1
      (pos 4)
    ≡ ok 1
unfolding layer_locate
locate_run = refl

layer_capacities_lem_example :
    (xs : List ℕ) × (capacities : List ℕ) × (capacity : ℕ) × (dict_get 7
        (layer_capacities 8192 lengths 2).1
      ≡ some xs)
    × (get_elem? xs 0 ≡ some (placed 2 lengths 7 0))
    × (dict_get 7 (layer_capacities 8192 lengths 2).0 ≡ some capacities)
    × (get_elem? capacities 0 ≡ some capacity)
    × IsEnough 8192 (placed 2 lengths 7 0) capacity
layer_capacities_lem_example =
    layer_capacities_lem 8192 2 7 0 lengths (omega arith) (omega arith) refl
