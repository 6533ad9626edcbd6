-- ===== src/Prelude/Pigeonhole.antt =====
-- A function that keeps the numbers below `n` apart, and below `n`, takes every value below `n`.
use mathlib.Core.Path.{◌≡◌}
use mathlib.Core.Logic.{◌≢◌, ◌⊎◌, inl, inr}
use Prim.Native.Nat.{ℕ, zero, suc, ◌-◌, ◌<◌}
use native.Mathlib.Decide.{dec_lt, ℕ_discrete}
use native.Mathlib.Omega.{arith}
use ummwith_client.Prelude.Tests.{ltb, if◌then◌else◌}

abbrev pub Below : ℕ → ℕ → (ℕ → ℕ) → Type 0
Below n m f = (i : ℕ) → i < n → f i < m

abbrev pub Apart : ℕ → (ℕ → ℕ) → Type 0
Apart n f = (i j : ℕ) → i < j → j < n → f i ≢ f j

-- Close the gap that a missed value `a` leaves.
abbrev close_gap : ℕ → ℕ → ℕ
close_gap a y = if ltb a y then y - 1 else y

close_gap-ne : (a y z : ℕ) → y ≢ a → z ≢ a → y ≢ z → close_gap a y ≢ close_gap a z
close_gap-ne a y z p q r = ground arith

close_gap-lt : (a y m : ℕ) → a < suc m → y < suc m → y ≢ a → close_gap a y < m
close_gap-lt a y m p q r = ground arith

-- More numbers than values do not stay apart.
crowded : (m : ℕ) (f : ℕ → ℕ) → Below (suc m) m f → ¬ Apart (suc m) f
crowded zero f into apart = absurd (omega (arith, into 0 (omega arith)))
crowded (suc m) f into apart =
    crowded m (λ i. close_gap (f (suc m)) (f i))
      (λ i h.
        close_gap-lt (f (suc m)) (f i) m (into (suc m) (omega arith)) (into i (omega arith))
          (apart i (suc m) h (omega arith)))
      (λ i j h k.
        close_gap-ne (f (suc m)) (f i) (f j) (apart i (suc m) (omega arith) (omega arith))
          (apart j (suc m) k (omega arith)) (apart i j h (omega arith)))

find_or_miss : (n d : ℕ) (f : ℕ → ℕ) → ((i : ℕ) × (i < n) × (f i ≡ d)) ⊎ ((i : ℕ) → i < n → f i ≢ d)
find_or_miss zero d f = inr (λ i h. elim h [ ])
find_or_miss (suc n) d f = elim (ℕ_discrete (f n) d) [
  | yes here ↦ inl (n, omega arith, here)
  | no elsewhere ↦ earlier elsewhere (find_or_miss n d f)
]
  where
    earlier :
        f n ≢ d
        → ((i : ℕ) × (i < n) × (f i ≡ d)) ⊎ ((i : ℕ) → i < n → f i ≢ d)
        → ((i : ℕ) × (i < suc n) × (f i ≡ d)) ⊎ ((i : ℕ) → i < suc n → f i ≢ d)
    earlier last (inl (i, h, e)) = inl (i, omega arith, e)
    earlier last (inr miss) = inr (λ i h. elim (dec_lt i n) [
      | yes p ↦ miss i p
      | no p ↦ λ e. last (let same : n ≡ i = omega arith in rw same e)
    ])

pub pigeonhole :
    (n d : ℕ) (f : ℕ → ℕ) → Below n n f → Apart n f → d < n → (i : ℕ) × (i < n) × (f i ≡ d)
pigeonhole zero d f into apart h = elim h [ ]
pigeonhole (suc n) d f into apart h = elim (find_or_miss (suc n) d f) [
  | inl found ↦ found
  | inr miss ↦ absurd (
      crowded n (λ i. close_gap d (f i)) (λ i k. close_gap-lt d (f i) n h (into i k) (miss i k))
        (λ i j k l. close_gap-ne d (f i) (f j) (miss i (omega arith)) (miss j l) (apart i j k l)))
]
