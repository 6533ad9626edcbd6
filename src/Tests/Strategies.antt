-- ===== src/Tests/Strategies.antt =====
-- Runs and instances for the placement strategy.
use ummwith_client.Prelude.{
  ℕ, ◌+◌, ◌<◌, ◌≡◌, ◌↔◌, refl, arith, true, some, [], ◌∷◌, map, ok, err, value_error,
}
use ummwith_client.Prelude.Int.{pos, negsuc, ◌+ℤ◌}
use ummwith_client.Strategy.{
  PositionHash, Options, init, locate, locate_batch, device_of, check_step, check_domain,
}
use ummwith_client.Strategy.Prime.{is_prime, IsPrime, is_prime_iff}
use ummwith_client.Strategy.Placement.{
  IsConfigured, OnceOn, init-IsConfigured, locate-lt, tokens_cover, locate_each, numbers,
  locate_batch-locate_each,
}

abbrev options : Options
options = record {
  step_idx = some 5;
  step_layer = some 7;
  prime = some 1009;
  max_token_idx = some 100;
  max_layer_id = some 10;
}

abbrev strategy : PositionHash
strategy = record { num_devices = 4; step_idx = 5; step_layer = 7; prime = 1009 }

built : init 4 options ≡ ok strategy
unfolding init check_step check_domain is_prime
built = refl

strategy-IsConfigured : IsConfigured strategy
strategy-IsConfigured = (init-IsConfigured 4 options built).1

placed : locate strategy (pos 2, pos 3) ≡ ok 1
unfolding locate device_of ◌+ℤ◌
placed = refl

is_prime_iff_example : (is_prime 97 ≡ true) ↔ IsPrime 97
is_prime_iff_example = is_prime_iff 97

locate-lt_example :
    (device_of strategy (pos 2) (pos 3) < 4)
    × ((d : ℕ) → locate strategy (pos 2, pos 3) ≡ ok d → d < 4)
locate-lt_example = locate-lt strategy-IsConfigured (pos 2) (pos 3)

tokens_cover_example : OnceOn strategy-IsConfigured (λ i. (pos 2, pos (3 + i))) 1
tokens_cover_example = tokens_cover strategy-IsConfigured 2 3 1 (omega arith) (omega arith)

locate_batch-locate_each_example :
    (locate_each strategy (map numbers ((2, 3) ∷ []))
      ≡ ok (locate_batch strategy (map numbers ((2, 3) ∷ []))))
    × (locate strategy (pos 0, negsuc 0) ≡ err value_error)
    × ((d : ℕ) × (locate_batch strategy ((pos 0, negsuc 0) ∷ []) ≡ d ∷ []) × (d < 4))
locate_batch-locate_each_example =
    locate_batch-locate_each ((2, 3) ∷ []) (pos 0) 0 strategy-IsConfigured
