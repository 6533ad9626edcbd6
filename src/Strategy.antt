-- ===== src/Strategy.antt =====
-- bmpclient/virtual_media_strategy.py: which device a key (layer_id, token_idx) is placed on.
pub mod Prime
pub mod Coprime
pub mod Placement
use ummwith_client.Prelude.{
  ℕ, zero, suc, ◌+◌, ◌*◌, ◌%◌, ◌≡◌, Bool, true, false, not, ◌||◌, ◌&&◌, Option, none, some, List,
  [], ◌∷◌, Result, ok, err, value_error, raise_if, ◌>>=◌, ◌>>◌, leb, max, ◌==◌, if◌then◌else◌,
}
use ummwith_client.Prelude.Int.{ℤ, pos, negsuc, is_neg, ◌+ℤ◌, scale, mod_ℤ}
use Prime.{is_prime}

-- The options of the configuration that the constructor reads; `none` is an absent key.
pub record Options : Type 0 where
  pub step_idx : Option ℕ
  pub step_layer : Option ℕ
  pub prime : Option ℕ
  pub max_token_idx : Option ℕ
  pub max_layer_id : Option ℕ

abbrev pub default_step_idx : ℕ
default_step_idx = 17

abbrev pub default_step_layer : ℕ
default_step_layer = 23

abbrev pub default_prime : ℕ
default_prime = 2147483647

-- `PositionHashStrategy`
pub record PositionHash : Type 0 where
  pub num_devices : ℕ
  pub step_idx : ℕ
  pub step_layer : ℕ
  pub prime : ℕ

abbrev or_default : Option ℕ → ℕ → ℕ
or_default none d = d
or_default (some n) d = n

-- The two checks of the `for name, step in ...` loop.
unfoldable pub check_step : ℕ → ℕ → Result (Unit {0})
check_step n step = do raise_if (not (is_prime step)) value_error; raise_if (leb step n) value_error

-- The check of the domain, if both of its bounds are configured.
unfoldable pub check_domain : ℕ → ℕ → ℕ → Option ℕ → Option ℕ → Result (Unit {0})
check_domain step_t step_l prime (some t) (some l) =
    raise_if (leb prime (t * step_t + l * step_l)) value_error
check_domain step_t step_l prime (some t) none = ok tt
check_domain step_t step_l prime none max_l = ok tt

-- `PositionHashStrategy.__init__`, with that of its base class.
unfoldable pub init : ℕ → Options → Result PositionHash
unfolding check_step check_domain
init num_devices config = do
  raise_if (num_devices == 0) value_error
  let step_t = or_default config.step_idx default_step_idx
  let step_l = or_default config.step_layer default_step_layer
  let p = or_default config.prime default_prime
  check_step num_devices step_t
  check_step num_devices step_l
  raise_if (step_t == step_l) value_error
  raise_if (not (is_prime p)) value_error
  raise_if (leb p (max step_t step_l)) value_error
  check_domain step_t step_l p config.max_token_idx config.max_layer_id
  ok (record { num_devices = num_devices; step_idx = step_t; step_layer = step_l; prime = p })

-- `((token_idx * step_idx + layer_id * step_layer) % prime) % num_devices`
unfoldable pub device_of : PositionHash → ℤ → ℤ → ℕ
device_of s layer_id token_idx =
    mod_ℤ (scale token_idx s.step_idx +ℤ scale layer_id s.step_layer) s.prime % s.num_devices

-- `PositionHashStrategy.locate`; a key is (layer_id, token_idx).
unfoldable pub locate : PositionHash → ℤ × ℤ → Result ℕ
locate s (layer_id, token_idx) = do
  raise_if (is_neg token_idx || is_neg layer_id) value_error
  ok (device_of s layer_id token_idx)

-- `PositionHashStrategy.locate_batch`, which does not test the signs.
unfoldable pub locate_batch : PositionHash → List (ℤ × ℤ) → List ℕ
locate_batch s [] = []
locate_batch s ((layer_id, token_idx) ∷ keys) = device_of s layer_id token_idx ∷ locate_batch s keys
