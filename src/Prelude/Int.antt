-- ===== src/Prelude/Int.antt =====
-- Python's integers over the native numbers, where the source tests a sign.
use Prim.Native.Nat.{ℕ, suc, ◌+◌, ◌-◌, ◌*◌, ◌%◌}
use mathlib.Core.Bool.{Bool, true, false}
use mathlib.Core.Option.{Option, none, some}
use mathlib.Core.List.{List}
use ummwith_client.Prelude.Tests.{ltb, leb, if◌then◌else◌}
use ummwith_client.Prelude.Lists.{length, get_elem?}
use ummwith_client.Prelude.Outcome.{Error, Result, ok, err, index_error}

-- `negsuc n` is -(n + 1).
pub data ℤ : Type 0 where
  pos : ℕ → ℤ
  negsuc : ℕ → ℤ

abbrev pub pos_part : ℤ → ℕ
pos_part (pos n) = n
pos_part (negsuc n) = 0

abbrev pub neg_part : ℤ → ℕ
neg_part (pos n) = 0
neg_part (negsuc n) = suc n

abbrev pub sub_ℕ : ℕ → ℕ → ℤ
sub_ℕ a b = if leb b a then pos (a - b) else negsuc (b - a - 1)

infixl 65 ◌+ℤ◌ ◌-ℤ◌
unfoldable pub ◌+ℤ◌ : ℤ → ℤ → ℤ
a +ℤ b = sub_ℕ (pos_part a + pos_part b) (neg_part a + neg_part b)

unfoldable pub ◌-ℤ◌ : ℤ → ℤ → ℤ
a -ℤ b = sub_ℕ (pos_part a + neg_part b) (neg_part a + pos_part b)

infixl 70 ◌*ℤ◌
unfoldable pub ◌*ℤ◌ : ℤ → ℤ → ℤ
a *ℤ b =
    sub_ℕ (pos_part a * pos_part b + neg_part a * neg_part b)
      (pos_part a * neg_part b + neg_part a * pos_part b)

abbrev pub is_neg : ℤ → Bool
is_neg (pos n) = false
is_neg (negsuc n) = true

-- `a * k` for a `k` that is not negative.
abbrev pub scale : ℤ → ℕ → ℤ
scale (pos n) k = pos (n * k)
scale (negsuc n) k = sub_ℕ 0 (suc n * k)

-- Python's `a % m` for a positive `m`: the result is never negative.
abbrev pub mod_ℤ : ℤ → ℕ → ℕ
mod_ℤ (pos n) m = n % m
mod_ℤ (negsuc n) m = m - 1 - n % m

-- `if not 0 <= x < n: raise e`, then `x` as a number.
abbrev pub nat_below : Error → ℤ → ℕ → Result ℕ
nat_below e (pos x) n = if ltb x n then ok x else err e
nat_below e (negsuc x) n = err e

abbrev pub or_index_error {ℓ} : {A : Type ℓ} → Option A → Result A
or_index_error (some a) = ok a
or_index_error none = err index_error

-- `xs[i]` of a Python sequence: a negative index counts from the end.
abbrev pub py_index {ℓ} : {A : Type ℓ} → List A → ℤ → Result A
py_index xs (pos i) = or_index_error (get_elem? xs i)
py_index xs (negsuc i) =
    if ltb i (length xs) then or_index_error (get_elem? xs (length xs - suc i)) else err index_error
