-- ===== src/Prelude/Ensures.antt =====
-- Postconditions of calls that may raise.
use mathlib.Core.Path.{◌≡◌, refl}
use mathlib.Core.Bool.{Bool, true, false}
use ummwith_client.Prelude.Outcome.{Error, Result, ok, err, value_error, raise_if, ◌>>=◌, ◌>>◌}

-- A property of what a call returns.
abbrev pub Ensures : {A : Type 0} → (A → Type 0) → Result A → Type 0
Ensures P (ok a) = P a
Ensures P (err e) = Unit

pub bind-Ensures :
    {A B : Type 0} (P : A → Type 0) (Q : B → Type 0) (r : Result A) (f : A → Result B)
    → Ensures P r
    → ((a : A) → P a → Ensures Q (f a))
    → Ensures Q (r >>= f)
bind-Ensures P Q (ok a) f h k = k a h
bind-Ensures P Q (err e) f h k = tt

pub unless_raised :
    {B : Type 0} (Q : B → Type 0) (b : Bool) (e : Error) (r : Result B)
    → (b ≡ false → Ensures Q r)
    → Ensures Q (raise_if b e >> r)
unless_raised Q true e r h = tt
unless_raised Q false e r h = h refl

pub anything : {A : Type 0} (r : Result A) → Ensures (λ (a : A). Unit) r
anything (ok a) = tt
anything (err e) = tt

pub weaken :
    {A : Type 0} (P Q : A → Type 0) (r : Result A)
    → Ensures P r
    → ((a : A) → P a → Q a)
    → Ensures Q r
weaken P Q (ok a) h k = k a h
weaken P Q (err e) h k = tt

pub both :
    {A : Type 0} (P Q : A → Type 0) (r : Result A)
    → Ensures P r
    → Ensures Q r
    → Ensures (λ (a : A). P a × Q a) r
both P Q (ok a) h k = (h, k)
both P Q (err e) h k = tt

-- Nothing but a ValueError is raised.
abbrev pub OnlyValueError : {A : Type 0} → Result A → Type 0
OnlyValueError (ok a) = Unit
OnlyValueError (err e) = e ≡ value_error

pub only-bind :
    {A B : Type 0} (r : Result A) (f : A → Result B)
    → OnlyValueError r
    → ((a : A) → OnlyValueError (f a))
    → OnlyValueError (r >>= f)
only-bind (ok a) f h k = k a
only-bind (err e) f h k = h

pub only-raise_if :
    {B : Type 0} (b : Bool) (r : Result B)
    → OnlyValueError r
    → OnlyValueError (raise_if b value_error >> r)
only-raise_if true r h = refl
only-raise_if false r h = h
