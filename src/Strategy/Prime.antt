-- ===== src/Strategy/Prime.antt =====
-- `is_prime` of bmpclient/virtual_media_strategy.py: trial division by odd numbers, decided against
-- the definition of a prime number.
use ummwith_client.Prelude.{
  ℕ, zero, suc, ◌+◌, ◌*◌, ◌/◌, ◌%◌, ◌≤◌, ◌<◌, ◌≡◌, ◌↔◌, ◌≢◌, ◌⊎◌, inl, inr, refl, Bool, true, false,
  arith, dec_lt, ltb, leb, ◌==◌, if◌then◌else◌, Bool-cases,
}
use native.Mathlib.Nat.{div-add-mod, mul-mod_left, mul-le-mul}

-- `while i * i <= n`, with fuel for its rounds.
unfoldable pub trial : ℕ → ℕ → ℕ → Bool
trial zero n i = true
trial (suc rounds) n i =
    let rest = trial rounds n (i + 2) in
    if leb (i * i) n then (if n % i == 0 then false else rest) else true

-- `i` grows by 2 in each round and the loop ends before it passes n: n rounds are enough.
unfoldable pub is_prime : ℕ → Bool
unfolding trial
is_prime n = if ltb n 2 then false else if n % 2 == 0 then n == 2 else trial n n 3

-- No number from 2 on divides `n` but `n` itself.
abbrev pub IsPrime : ℕ → Type 0
IsPrime n = (2 ≤ n) × ((d : ℕ) → 2 ≤ d → d < n → n % d ≢ 0)

abbrev NoneBelow : ℕ → ℕ → Type 0
NoneBelow n i = (d : ℕ) → 2 ≤ d → d < i → n % d ≢ 0

-- A divisor past the square root has a partner below it.
cofactor :
    (n d q i : ℕ) → n ≡ d * q → n < i * i → 2 ≤ d → d < n → i ≤ d → (2 ≤ q) × (q < i) × (n % q ≡ 0)
cofactor n d zero i e small two below big = absurd (omega arith)
cofactor n d (suc zero) i e small two below big = absurd (omega arith)
cofactor n d (suc (suc q)) i e small two below big =
    (omega arith, partner_below, rw e (mul-mod_left d (suc (suc q))))
  where
    partner_below : suc (suc q) < i
    partner_below = elim (dec_lt (suc (suc q)) i) [
      | yes p ↦ p
      | no over ↦ absurd (
          omega (arith, mul-le-mul {n₁ = i} {m₁ = i} {n₂ = d} {m₂ = suc (suc q)} big (omega arith)))
    ]

past_root : (n i : ℕ) → n < i * i → NoneBelow n i → NoneBelow n n
past_root n i small h d two below e = elim (dec_lt d i) [
  | yes under ↦ h d two under e
  | no over ↦
      let whole : n ≡ d * (n / d) = omega (arith, div-add-mod n d) in
      let partner = cofactor n d (n / d) i whole small two below (omega arith) in
      h (n / d) partner.0 partner.1 partner.2
]

-- An even divisor makes the number even.
even_divisor : (n m : ℕ) → n % (2 * m) ≡ 0 → n % 2 ≡ 0
even_divisor n m e = omega (arith, div-add-mod n (2 * m))

-- A round that finds no divisor extends what is known past `i`, and past the even i + 1.
one_round : (n i : ℕ) → n % 2 ≡ 1 → i % 2 ≡ 1 → NoneBelow n i → n % i ≢ 0 → NoneBelow n (i + 2)
one_round n i odd odd_i h not_i d two below e = elim (dec_lt d i) [
  | yes under ↦ h d two under e
  | no over ↦ elim (dec_lt i d) [
    | yes after ↦
        let halved : d ≡ 2 * (d / 2) = omega arith in
        absurd (omega (arith, even_divisor n (d / 2) (rw (← halved) e)))
    | no same ↦ let here : d ≡ i = omega arith in not_i (rw (← here) e)
  ]
]

-- What the loop has found by the time it reaches `i`, and what it answers.
trial_lem :
    (rounds n i : ℕ)
    → n % 2 ≡ 1
    → i % 2 ≡ 1
    → 3 ≤ i
    → n < i + 2 * rounds
    → NoneBelow n i
    → (trial rounds n i ≡ true) × NoneBelow n n
      ⊎ (trial rounds n i ≡ false) × ((d : ℕ) × (2 ≤ d) × (d < n) × (n % d ≡ 0))
unfolding trial
trial_lem zero n i odd odd_i three fuel h = inl (refl, λ d two below. h d two (omega arith))
trial_lem (suc rounds) n i odd odd_i three fuel h = elim (Bool-cases (leb (i * i) n)) [
  | inr past ↦ inl (rw past, past_root n i (ground arith) h)
  | inl more ↦ elim (Bool-cases (n % i == 0)) [
    | inl divides ↦ inr (rw (more, divides), (i, omega arith, grind arith, ground arith))
    | inr not_i ↦
        rw (more, not_i)
          (trial_lem rounds n (i + 2) odd (omega arith) (omega arith) (omega arith)
            (one_round n i odd odd_i h (ground arith)))
  ]
]

odd-IsPrime : (n : ℕ) → 2 ≤ n → n % 2 ≡ 1 → (trial n n 3 ≡ true) ↔ IsPrime n
odd-IsPrime n two odd =
    by_answer (trial_lem n n 3 odd (omega arith) (omega arith) (omega arith) none_yet)
  where
    none_yet : NoneBelow n 3
    none_yet d low below e = let here : d ≡ 2 = omega arith in absurd (omega (arith, rw here at e))

    by_answer :
        (trial n n 3 ≡ true) × NoneBelow n n
          ⊎ (trial n n 3 ≡ false) × ((d : ℕ) × (2 ≤ d) × (d < n) × (n % d ≡ 0))
        → (trial n n 3 ≡ true) ↔ IsPrime n
    by_answer (inl (answer, free)) = (λ e. (two, free), λ p. answer)
    by_answer (inr (answer, (d, low, below, e))) = (λ t. cc, λ p. absurd (p.1 d low below e))

-- The test answers `true` exactly on the prime numbers.
pub is_prime_iff : (n : ℕ) → (is_prime n ≡ true) ↔ IsPrime n
unfolding is_prime
is_prime_iff n = elim (dec_lt n 2) [
  | yes small ↦ (λ e. absurd (ground arith), λ p. absurd (omega arith))
  | no big ↦ elim (Bool-cases (n % 2 == 0)) [
    | inl even ↦
        (λ e. (omega arith, λ d low below. absurd (ground arith)), λ p. ground (arith, p.1 2))
    | inr odd ↦
        let answer = odd-IsPrime n (omega arith) (ground arith) in
        (λ e. answer.0 (ground arith), λ p. ground (arith, answer.1 p))
  ]
]
