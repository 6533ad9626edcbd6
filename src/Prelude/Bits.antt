-- ===== src/Prelude/Bits.antt =====
-- `<<`, `|` and `&` where the source packs fields: their meaning as sums and remainders.
use Prim.Native.Nat.{
  ℕ, zero, suc, ◌+◌, ◌-◌, ◌*◌, ◌/◌, ◌%◌, ◌^◌, ◌≤◌, ◌<◌, min, max, bit_and, bit_or, digits,
  bit_and-bitwise, bit_or-bitwise,
}
use mathlib.Core.Path.{◌≡◌, refl, ap}
use native.Mathlib.Nat.{pow-suc, one-le-pow}
use native.Mathlib.Omega.{arith}

digits-zero : (rest : ℕ → ℕ) (digit : ℕ → ℕ → ℕ) (k y : ℕ) → digits rest digit k zero y ≡ rest y
digits-zero rest digit zero y = refl
digits-zero rest digit (suc k) y = refl

-- Spare fuel changes nothing in the digit recursion.
digits_enough :
    (rest : ℕ → ℕ) (digit : ℕ → ℕ → ℕ) (j k x y : ℕ)
    → x ≤ j
    → x ≤ k
    → digits rest digit j x y ≡ digits rest digit k x y
digits_enough rest digit j k zero y p q = rw (digits-zero rest digit j, digits-zero rest digit k)
digits_enough rest digit zero k (suc x) y p q = absurd (omega arith)
digits_enough rest digit (suc j) zero (suc x) y p q = absurd (omega arith)
digits_enough rest digit (suc j) (suc k) (suc x) y p q =
    rw (digits_enough rest digit j k (suc x / 2) (y / 2) (omega arith) (omega arith))

-- One step of `|` and of `&`: the lowest digit, and the rest.
or_low_digit : (x y : ℕ) → bit_or x y ≡ bit_or (x / 2) (y / 2) * 2 + max (x % 2) (y % 2)
or_low_digit zero y = simp bit_or-bitwise (omega arith)
or_low_digit (suc x) y = simp bit_or-bitwise (
    omega (
      arith,
      digits_enough (λ b. b) max x (suc x / 2) (suc x / 2) (y / 2) (omega arith) (omega arith),
    ))

and_low_digit : (x y : ℕ) → bit_and x y ≡ bit_and (x / 2) (y / 2) * 2 + min (x % 2) (y % 2)
and_low_digit zero y = simp bit_and-bitwise (omega arith)
and_low_digit (suc x) y = simp bit_and-bitwise (
    omega (
      arith,
      digits_enough (λ b. 0) min x (suc x / 2) (suc x / 2) (y / 2) (omega arith) (omega arith),
    ))

or_zero_upto : (bound x : ℕ) → x ≤ bound → bit_or x 0 ≡ x
or_zero_upto zero zero h = refl
or_zero_upto (suc bound) zero h = refl
or_zero_upto zero (suc x) h = absurd (omega arith)
or_zero_upto (suc bound) (suc x) h =
    omega (arith, or_low_digit (suc x) 0, or_zero_upto bound (suc x / 2) (omega arith))

and_zero_upto : (bound x : ℕ) → x ≤ bound → bit_and x 0 ≡ 0
and_zero_upto zero zero h = refl
and_zero_upto (suc bound) zero h = refl
and_zero_upto zero (suc x) h = absurd (omega arith)
and_zero_upto (suc bound) (suc x) h =
    omega (arith, and_low_digit (suc x) 0, and_zero_upto bound (suc x / 2) (omega arith))

double_shift : (x k : ℕ) → x * 2 ^ suc k ≡ 2 * (x * 2 ^ k)
double_shift x k = omega (arith, ap (λ (p : ℕ). x * p) (pow-suc 2 k))

-- `(x << k) | low` with `low` in the vacated bits.
pub bit_or-shift : (k x low : ℕ) → low < 2 ^ k → bit_or (x * 2 ^ k) low ≡ x * 2 ^ k + low
bit_or-shift zero x low h = ground (arith, or_zero_upto x x)
bit_or-shift (suc k) x low h =
    ground (arith, or_low_digit (x * 2 ^ suc k) low, double_shift x k, bit_or-shift k x (low / 2))

-- `x & (2 ^ k - 1)` keeps the `k` low bits.
and_split : (k high low : ℕ) → low < 2 ^ k → bit_and (high * 2 ^ k + low) (2 ^ k - 1) ≡ low
and_split zero high low h = ground (arith, and_zero_upto (high * 1 + low) (high * 1 + low))
and_split (suc k) high low h = ground (
  arith,
  and_low_digit (high * 2 ^ suc k + low) (2 ^ suc k - 1),
  double_shift high k,
  pow-suc 2 k,
  one-le-pow k 2,
  and_split k high (low / 2),
)

pub bit_and-ones : (k x : ℕ) → bit_and x (2 ^ k - 1) ≡ x % 2 ^ k
bit_and-ones k x = ground (arith, one-le-pow k 2, and_split k (x / 2 ^ k) (x % 2 ^ k))
