-- ===== src/Prelude/Action.antt =====
-- Methods that mutate an object and may raise. What was written before a raise stays written, so
-- the state comes back beside the error too.
use mathlib.Core.Path.{◌≡◌, ap}
use ummwith_client.Prelude.Outcome.{Error, Result, ok, err}

abbrev pub Action : Type 0 → Type 0 → Type 0
Action S A = S → Result A × S

module _ {S A : Type 0} where
  abbrev pub pure : A → Action S A
  pure a s = (ok a, s)

  abbrev pub lift : Result A → Action S A
  lift r s = (r, s)

  abbrev pub gets : (S → A) → Action S A
  gets f s = (ok (f s), s)

abbrev pub modify : {S : Type 0} → (S → S) → Action S (Unit {0})
modify f s = (ok tt, f s)

abbrev pub continue : {S A B : Type 0} → Result A → (A → Action S B) → Action S B
continue (ok a) f s = f a s
continue (err e) f s = (err e, s)

infixl 5 ◌>>=◌ ◌>>◌
abbrev pub ◌>>=◌ : {S A B : Type 0} → Action S A → (A → Action S B) → Action S B
◌>>=◌ m f s = let (r, s') = m s in continue r f s'

abbrev pub ◌>>◌ : {S A B : Type 0} → Action S A → Action S B → Action S B
m >> k = m >>= λ _. k

-- `m >>= f` goes on with what `m` returns.
pub bind_ok :
    {S A B : Type 0} (m : Action S A) (f : A → Action S B) (s : S) (a : A) (s' : S)
    → m s ≡ (ok a, s')
    → (m >>= f) s ≡ f a s'
bind_ok m f s a s' h = ap (λ r. continue r.0 f r.1) h

-- A postcondition of `m >>= f` from one of `m`, whether `m` returns or raises.
pub bind_post {ℓ κ} :
    {S A B : Type 0} (P : Result A × S → Type ℓ) (Q : Result B × S → Type κ) (m : Action S A)
    (f : A → Action S B) (s : S)
    → P (m s)
    → ((a : A) (s' : S) → P (ok a, s') → Q (f a s'))
    → ((e : Error) (s' : S) → P (err e, s') → Q (err e, s'))
    → Q ((m >>= f) s)
bind_post {S = S} {A = A} P Q m f s h returns raises = by_result (m s) h
  where
    by_result : (r : Result A × S) → P r → Q (let (a, s') = r in continue a f s')
    by_result (ok a, s') p = returns a s' p
    by_result (err e, s') p = raises e s' p
