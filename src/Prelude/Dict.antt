-- ===== src/Prelude/Dict.antt =====
-- Python's dict with integer keys, as an association list.
use Prim.Native.Nat.{ℕ}
use mathlib.Core.Path.{◌≡◌, refl}
use mathlib.Core.List.{List, [], ◌∷◌}
use mathlib.Core.Option.{Option, none, some}
use native.Mathlib.Omega.{arith}
use ummwith_client.Prelude.Tests.{◌==◌, if◌then◌else◌}

module _ {A : Type 0} where
  unfoldable pub dict_get : ℕ → List (ℕ × A) → Option A
  dict_get k [] = none
  dict_get k ((j, v) ∷ rest) = if j == k then some v else dict_get k rest

  unfoldable pub dict_set : ℕ → A → List (ℕ × A) → List (ℕ × A)
  dict_set k v [] = (k, v) ∷ []
  dict_set k v ((j, old) ∷ rest) = if j == k then (j, v) ∷ rest else (j, old) ∷ dict_set k v rest

  unfoldable pub dict_del : ℕ → List (ℕ × A) → List (ℕ × A)
  dict_del k [] = []
  dict_del k ((j, v) ∷ rest) = if j == k then dict_del k rest else (j, v) ∷ dict_del k rest

  pub dict_get-dict_set :
      (k j : ℕ) (v : A) (d : List (ℕ × A))
      → dict_get j (dict_set k v d) ≡ (if k == j then some v else dict_get j d)
  unfolding dict_get dict_set
  dict_get-dict_set k j v [] = refl
  dict_get-dict_set k j v ((i, old) ∷ rest) = ground (arith, dict_get-dict_set k j v rest)

  pub dict_get-dict_del :
      (k j : ℕ) (d : List (ℕ × A))
      → dict_get j (dict_del k d) ≡ (if k == j then none else dict_get j d)
  unfolding dict_get dict_del
  dict_get-dict_del k j [] = ground arith
  dict_get-dict_del k j ((i, old) ∷ rest) = ground (arith, dict_get-dict_del k j rest)
