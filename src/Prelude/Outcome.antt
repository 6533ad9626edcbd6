-- ===== src/Prelude/Outcome.antt =====
-- Python's exceptions as values. `segment_full` is `SegmentFullError`, `exhausted` is
-- `MemoryExhaustedError`, `struct_error` is `struct.error`, `memory_error` is `MemoryError`; the messages are left out.
use mathlib.Core.Path.{◌≡◌, refl}
use mathlib.Core.Logic.{◌⊎◌, inl, inr}
use mathlib.Core.Bool.{Bool, true, false}

pub data Error : Type 0 where
  value_error index_error key_error type_error runtime_error timeout_error : Error
  segment_full exhausted struct_error attribute_error overflow_error memory_error : Error

pub data Result {ℓ} (A : Type ℓ) : Type ℓ where
  ok : A → Result A
  err : Error → Result A

-- `if refused: raise why`
abbrev pub raise_if : Bool → Error → Result (Unit {0})
raise_if refused why = elim refused [ false ↦ ok tt | true ↦ err why ]

-- What follows is skipped once something has been raised.
module _ {ℓ κ} {A : Type ℓ} {B : Type κ} where
  infixl 5 ◌>>=◌
  abbrev pub ◌>>=◌ : Result A → (A → Result B) → Result B
  err why >>= next = err why
  ok a >>= next = next a

module _ {κ} {B : Type κ} where
  infixl 5 ◌>>◌
  abbrev pub ◌>>◌ : Result (Unit {0}) → Result B → Result B
  err why >> next = err why
  ok _ >> next = next

pub Result-cases {ℓ} :
    {A : Type ℓ} (r : Result A) → ((a : A) × (r ≡ ok a)) ⊎ ((e : Error) × (r ≡ err e))
Result-cases (ok a) = inl (a, refl)
Result-cases (err e) = inr (e, refl)
