-- ===== src/Strategy/Placement.antt =====
-- The two properties that the docs promise of the placement: N tokens in a row, and one token in
-- N layers in a row, meet each of the N devices exactly once.
use native.Mathlib.Nat.{mod-lt, mod-eq_of_lt, mul-le-mul_right}
use ummwith_client.Prelude.{
  ℕ, ◌+◌, ◌-◌, ◌*◌, ◌%◌, ◌≤◌, ◌<◌, ◌≡◌, ◌≢◌, refl, sym, ap, ◌∙◌, arith, some, List, [], ◌∷◌, map,
  Result, ok, err, ◌>>=◌, value_error,
}
use ummwith_client.Prelude.Int.{ℤ, pos, negsuc, ◌+ℤ◌}
use ummwith_client.Strategy.Prime.{IsPrime, is_prime_iff}
use ummwith_client.Strategy.Coprime.{steps_cover}
use ummwith_client.Strategy.{
  PositionHash, Options, init, check_step, check_domain, device_of, locate, locate_batch,
}

-- What the constructor checks.
pub record IsConfigured (s : PositionHash) : Type 0 where
  pub some_device : 0 < s.num_devices
  pub idx_prime : IsPrime s.step_idx
  pub idx_big : s.num_devices < s.step_idx
  pub layer_prime : IsPrime s.step_layer
  pub layer_big : s.num_devices < s.step_layer
  pub different : s.step_idx ≢ s.step_layer
  pub prime_prime : IsPrime s.prime
  pub prime_big : (s.step_idx < s.prime) × (s.step_layer < s.prime)

-- With both bounds configured, no key of the domain wraps around the prime.
abbrev pub CoversDomain : Options → PositionHash → Type 0
CoversDomain o s =
    (t l : ℕ)
    → o.max_token_idx ≡ some t
    → o.max_layer_id ≡ some l
    → t * s.step_idx + l * s.step_layer < s.prime

-- A strategy that the constructor accepts has the asked number of devices and is configured as
-- the docs demand, and with both bounds given no key of the domain wraps around.
pub init-IsConfigured :
    (n : ℕ) (o : Options) {s : PositionHash}
    → init n o ≡ ok s
    → (s.num_devices ≡ n) × IsConfigured s × CoversDomain o s
unfolding init check_step check_domain
init-IsConfigured n o {s} h = (
  ground arith,
  record {
    some_device = ground arith;
    idx_prime = (is_prime_iff s.step_idx).0 (ground arith);
    idx_big = ground arith;
    layer_prime = (is_prime_iff s.step_layer).0 (ground arith);
    layer_big = ground arith;
    different = ground arith;
    prime_prime = (is_prime_iff s.prime).0 (ground arith);
    prime_big = ground arith;
  },
  λ t l et el. ground arith,
)

-- The device of a key that is not negative.
device-of_pos :
    (s : PositionHash) (l t : ℕ)
    → device_of s (pos l) (pos t) ≡ (t * s.step_idx + l * s.step_layer) % s.prime % s.num_devices
unfolding device_of ◌+ℤ◌
device-of_pos s l t = ground arith

-- Where nothing wraps around the prime, the device is the residue of the sum.
locate_no_wrap :
    (s : PositionHash) (l t : ℕ)
    → t * s.step_idx + l * s.step_layer < s.prime
    → locate s (pos l, pos t) ≡ ok ((t * s.step_idx + l * s.step_layer) % s.num_devices)
unfolding locate
locate_no_wrap s l t h = rw (device-of_pos s l t, mod-eq_of_lt h)

ok-injective : {a b : ℕ} → ok a ≡ ok b → a ≡ b
ok-injective e = cc

module _ {s : PositionHash} (c : IsConfigured s) where
  -- Every device that `locate` or `locate_batch` names exists; keys with a negative part are
  -- refused by `locate`.
  pub locate-lt :
      (layer token : ℤ)
      → (device_of s layer token < s.num_devices)
        × ((d : ℕ) → locate s (layer, token) ≡ ok d → d < s.num_devices)
  unfolding locate device_of
  locate-lt layer token =
      let inside : device_of s layer token < s.num_devices = mod-lt _ c.some_device in
      (inside, λ d h. ground arith)

  -- Exactly one of the first `num_devices` keys is placed on device `d`.
  abbrev pub OnceOn : (ℕ → ℤ × ℤ) → ℕ → Type 0
  OnceOn key d =
      (i : ℕ) × (i < s.num_devices)
      × (locate s (key i) ≡ ok d)
      × ((j : ℕ) → j < s.num_devices → locate s (key j) ≡ ok d → j ≡ i)

  once_on :
      (key : ℕ → ℤ × ℤ) (x p d : ℕ)
      → IsPrime p
      → s.num_devices < p
      → d < s.num_devices
      → ((i : ℕ) → i < s.num_devices → locate s (key i) ≡ ok ((x + i * p) % s.num_devices))
      → OnceOn key d
  once_on key x p d prime big device placed =
      let (i, k, e, unique) = steps_cover s.num_devices p x d prime big device in
      (i, k, placed i k ∙ ap ok e, λ j m f. unique j m (ok-injective (sym (placed j m) ∙ f)))

  module _ (l t d : ℕ) (device : d < s.num_devices) where
    -- Property one: of `num_devices` tokens in a row in one layer, exactly one is placed on each
    -- device, as long as the last of them does not wrap around the prime.
    pub tokens_cover :
        (t + (s.num_devices - 1)) * s.step_idx + l * s.step_layer < s.prime
        → OnceOn (λ i. (pos l, pos (t + i))) d
    tokens_cover domain =
        once_on (λ i. (pos l, pos (t + i))) (t * s.step_idx + l * s.step_layer) s.step_idx d
          c.idx_prime c.idx_big device
          λ i k.
            let last : t + i ≤ t + (s.num_devices - 1) = omega arith in
            locate_no_wrap s l (t + i) (omega (arith, mul-le-mul_right s.step_idx last))
            ∙ ap (λ (x : ℕ). ok (x % s.num_devices)) (omega arith)

    -- Property two: of `num_devices` layers in a row of one token, exactly one is placed on each
    -- device, as long as the last of them does not wrap around the prime.
    pub layers_cover :
        t * s.step_idx + (l + (s.num_devices - 1)) * s.step_layer < s.prime
        → OnceOn (λ i. (pos (l + i), pos t)) d
    layers_cover domain =
        once_on (λ i. (pos (l + i), pos t)) (t * s.step_idx + l * s.step_layer) s.step_layer d
          c.layer_prime c.layer_big device
          λ i k.
            let last : l + i ≤ l + (s.num_devices - 1) = omega arith in
            locate_no_wrap s (l + i) t (omega (arith, mul-le-mul_right s.step_layer last))
            ∙ ap (λ (x : ℕ). ok (x % s.num_devices)) (omega arith)

-- On keys that are not negative the batch is a `locate` of each key.
unfoldable pub locate_each : PositionHash → List (ℤ × ℤ) → Result (List ℕ)
locate_each s [] = ok []
locate_each s (key ∷ keys) = do d ← locate s key; ds ← locate_each s keys; ok (d ∷ ds)

abbrev pub numbers : ℕ × ℕ → ℤ × ℤ
numbers (l, t) = (pos l, pos t)

-- On keys that are not negative `locate_batch` returns what `locate` returns for each. A key with
-- a negative token, which `locate` refuses, gets from `locate_batch` an existing device too.
pub locate_batch-locate_each :
    {s : PositionHash} (keys : List (ℕ × ℕ)) (layer : ℤ) (t : ℕ)
    → IsConfigured s
    → (locate_each s (map numbers keys) ≡ ok (locate_batch s (map numbers keys)))
      × (locate s (layer, negsuc t) ≡ err value_error)
      × ((d : ℕ) × (locate_batch s ((layer, negsuc t) ∷ []) ≡ d ∷ []) × (d < s.num_devices))
unfolding locate locate_batch locate_each
locate_batch-locate_each {s} keys layer t c =
    (each keys, refl, (device_of s layer (negsuc t), refl, (locate-lt c layer (negsuc t)).0))
  where
    each :
        (ks : List (ℕ × ℕ)) → locate_each s (map numbers ks) ≡ ok (locate_batch s (map numbers ks))
    each [] = refl
    each ((l, u) ∷ ks) = rw (each ks)
