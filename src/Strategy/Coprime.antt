-- ===== src/Strategy/Coprime.antt =====
-- A prime step above the number of devices meets every residue once: the arithmetic behind the
-- placement.
use Prim.Native.Nat.{◌∣◌}
use native.Mathlib.Nat.{
  div-add-mod, mod-lt, mul-sub, mul-mod_right, mul-div_cancel', dvd-mul_left, dvd-mul_right,
  dvd-mul_left_of_dvd, dvd-add_iff_right, dvd_iff_mod-eq-zero, mul-dvd-mul_left, le_of_dvd,
  dvd_of_mul-dvd-mul_right, one-mul,
}
use ummwith_client.Prelude.{
  ℕ, zero, suc, ◌+◌, ◌-◌, ◌*◌, ◌/◌, ◌%◌, ◌≤◌, ◌<◌, ◌≡◌, ◌≢◌, ◌∙◌, sym, ap, arith, dec_lt,
}
use ummwith_client.Prelude.Pigeonhole.{Below, Apart, pigeonhole}
use ummwith_client.Strategy.Prime.{IsPrime}

-- Euclid's lemma, below the prime.
euclid : (bound n q p : ℕ) → n ≤ bound → IsPrime p → 0 < n → n < p → p ∣ n * q → p ∣ q
euclid zero n q p small prime pos below h = absurd (omega arith)
euclid (suc bound) n q p small prime positive below h = elim (dec_lt 1 n) [
  | no one ↦
      let single : n ≡ 1 = omega arith in
      let unit : n * q ≡ q = ap (λ (t : ℕ). t * q) single ∙ one-mul q in rw unit at h
  | yes two ↦
      let r : ℕ = p % n in
      let nonzero : r ≢ 0 = prime.1 n two below in
      let smaller : r < n = mod-lt p positive in
      let split : p / n * (n * q) + r * q ≡ p * q =
        omega (arith, ap (λ (t : ℕ). t * q) (div-add-mod p n)) in
      euclid bound r q p (omega arith) prime (omega arith) (omega arith)
        ((dvd-add_iff_right p (dvd-mul_left_of_dvd p h (p / n))).1 (rw split (dvd-mul_right p q)))
]

-- Two numbers with one residue differ by a multiple.
same_residue : (n x y : ℕ) → (x + y) % n ≡ x % n → y % n ≡ 0
same_residue n x y e =
    let multiple : y ≡ n * ((x + y) / n - x / n) =
      omega (arith, div-add-mod (x + y) n, div-add-mod x n, mul-sub n ((x + y) / n) (x / n)) in
    rw multiple (mul-mod_right n ((x + y) / n - x / n))

-- Fewer than `n` steps of a prime above `n` are no multiple of `n`.
no_multiple : (n k p : ℕ) → IsPrime p → n < p → 0 < k → k < n → (k * p) % n ≢ 0
no_multiple n k p prime big positive below e =
    let c : ℕ = k * p / n in
    let whole : n * c ≡ k * p = mul-div_cancel' n ((dvd_iff_mod-eq-zero n).1 e) in
    let by_p : p ∣ c =
      euclid n n c p (omega arith) prime (omega arith) big (rw whole (dvd-mul_left p k)) in
    let both : n * p ∣ k * p = rw (← whole) (mul-dvd-mul_left p n by_p) in
    absurd (omega (arith, le_of_dvd positive (dvd_of_mul-dvd-mul_right n (omega arith) both)))

-- From any start, `n` steps of a prime above `n` meet `n` different residues.
pub steps_distinct :
    (n p x i j : ℕ) → IsPrime p → n < p → i < j → j < n + i → (x + i * p) % n ≢ (x + j * p) % n
steps_distinct n p x i j prime big less near e =
    let apart : x + j * p ≡ x + i * p + (j - i) * p =
      omega (arith, ap (λ (t : ℕ). t * p) (split_index)) in
    no_multiple n (j - i) p prime big (omega arith) (omega arith)
      (same_residue n (x + i * p) ((j - i) * p) (rw (← apart) (sym e)))
  where
    split_index : j ≡ i + (j - i)
    split_index = omega arith

-- So they meet each residue exactly once.
pub steps_cover :
    (n p x d : ℕ)
    → IsPrime p
    → n < p
    → d < n
    → (i : ℕ) × (i < n) × ((x + i * p) % n ≡ d) × ((j : ℕ) → j < n → (x + j * p) % n ≡ d → j ≡ i)
steps_cover n p x d prime big h = with_unique (pigeonhole n d (λ i. (x + i * p) % n) into apart h)
  where
    into : Below n n (λ i. (x + i * p) % n)
    into i k = mod-lt (x + i * p) (omega arith)

    apart : Apart n (λ i. (x + i * p) % n)
    apart i j less k = steps_distinct n p x i j prime big less (omega arith)

    with_unique :
        (i : ℕ) × (i < n) × ((x + i * p) % n ≡ d)
        → (i : ℕ) × (i < n)
          × ((x + i * p) % n ≡ d)
          × ((j : ℕ) → j < n → (x + j * p) % n ≡ d → j ≡ i)
    with_unique (i, k, e) = (
      i,
      k,
      e,
      λ j m f. elim (dec_lt i j) [
        | yes less ↦ absurd (apart i j less m (e ∙ sym f))
        | no over ↦ elim (dec_lt j i) [
          | yes more ↦ absurd (apart j i more k (f ∙ sym e))
          | no same ↦ omega arith
        ]
      ],
    )
