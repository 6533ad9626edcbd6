-- ===== src/Prelude/SortedSet.antt =====
-- `sorted(set(…))` of a list of numbers.
use Prim.Native.Nat.{ℕ, ◌<◌}
use mathlib.Core.Path.{◌≡◌, refl}
use mathlib.Core.Logic.{inl, inr}
use mathlib.Core.Bool.{Bool, true, false}
use mathlib.Core.List.{List, [], ◌∷◌}
use native.Mathlib.Omega.{arith}
use ummwith_client.Prelude.Tests.{ltb, ◌==◌, if◌then◌else◌, Bool-cases}

-- `t in xs`
abbrev pub member : ℕ → List ℕ → Bool
member t [] = false
member t (x ∷ xs) = if x == t then true else member t xs

-- `sorted(set(xs))`
unfoldable pub insert_token : ℕ → List ℕ → List ℕ
insert_token t [] = t ∷ []
insert_token t (x ∷ xs) =
    if x == t then x ∷ xs else if ltb t x then t ∷ x ∷ xs else x ∷ insert_token t xs

unfoldable pub sorted_set : List ℕ → List ℕ
unfolding insert_token
sorted_set [] = []
sorted_set (t ∷ ts) = insert_token t (sorted_set ts)

-- Each token is below all later ones.
abbrev pub Below : ℕ → List ℕ → Type 0
Below t [] = Unit
Below t (x ∷ xs) = (t < x) × Below t xs

abbrev pub Ascending : List ℕ → Type 0
Ascending [] = Unit
Ascending (x ∷ xs) = Below x xs × Ascending xs

pub member-insert_token :
    (t k : ℕ) (xs : List ℕ) → member k (insert_token t xs) ≡ (if t == k then true else member k xs)
unfolding insert_token
member-insert_token t k [] = ground arith
member-insert_token t k (x ∷ xs) = ground (arith, member-insert_token t k xs)

pub member-sorted_set : (k : ℕ) (ts : List ℕ) → member k (sorted_set ts) ≡ member k ts
unfolding sorted_set
member-sorted_set k [] = refl
member-sorted_set k (t ∷ ts) =
    ground (arith, member-insert_token t k (sorted_set ts), member-sorted_set k ts)

pub Below-trans : (s t : ℕ) (xs : List ℕ) → s < t → Below t xs → Below s xs
Below-trans s t [] h b = tt
Below-trans s t (x ∷ xs) h (p, b) = (omega (arith, h, p), Below-trans s t xs h b)

insert_token-same : (t x : ℕ) (xs : List ℕ) → (x == t) ≡ true → insert_token t (x ∷ xs) ≡ x ∷ xs
unfolding insert_token
insert_token-same t x xs e = rw e refl

insert_token-here :
    (t x : ℕ) (xs : List ℕ)
    → (x == t) ≡ false
    → ltb t x ≡ true
    → insert_token t (x ∷ xs) ≡ t ∷ x ∷ xs
unfolding insert_token
insert_token-here t x xs e l = rw (e, l) refl

insert_token-later :
    (t x : ℕ) (xs : List ℕ)
    → (x == t) ≡ false
    → ltb t x ≡ false
    → insert_token t (x ∷ xs) ≡ x ∷ insert_token t xs
unfolding insert_token
insert_token-later t x xs e l = rw (e, l) refl

insert_token-Below : (s t : ℕ) (xs : List ℕ) → s < t → Below s xs → Below s (insert_token t xs)
insert_token-Below s t [] h b = unfold insert_token in (h, tt)
insert_token-Below s t (x ∷ xs) h (p, b) = elim (Bool-cases (x == t)) [
  | inl e ↦ rw (insert_token-same t x xs e) (p, b)
  | inr e ↦ elim (Bool-cases (ltb t x)) [
    | inl l ↦ rw (insert_token-here t x xs e l) (h, (p, b))
    | inr l ↦ rw (insert_token-later t x xs e l) (p, insert_token-Below s t xs h b)
  ]
]

insert_token-Ascending : (t : ℕ) (xs : List ℕ) → Ascending xs → Ascending (insert_token t xs)
insert_token-Ascending t [] a = unfold insert_token in (tt, tt)
insert_token-Ascending t (x ∷ xs) (b, a) = elim (Bool-cases (x == t)) [
  | inl e ↦ rw (insert_token-same t x xs e) (b, a)
  | inr e ↦ elim (Bool-cases (ltb t x)) [
    | inl l ↦
        let first : t < x = ground (arith, l) in
        rw (insert_token-here t x xs e l) ((first, Below-trans t x xs first b), (b, a))
    | inr l ↦
        let after : x < t = ground (arith, e, l) in
        rw (insert_token-later t x xs e l)
          (insert_token-Below x t xs after b, insert_token-Ascending t xs a)
  ]
]

pub sorted_set-Ascending : (ts : List ℕ) → Ascending (sorted_set ts)
unfolding sorted_set
sorted_set-Ascending [] = tt
sorted_set-Ascending (t ∷ ts) = insert_token-Ascending t (sorted_set ts) (sorted_set-Ascending ts)

pub member-Below : (t k : ℕ) (xs : List ℕ) → Below t xs → member k xs ≡ true → t < k
member-Below t k [] b h = absurd (cc h)
member-Below t k (x ∷ xs) (p, b) h = elim (Bool-cases (x == k)) [
  | inl e ↦ ground (arith, e, p)
  | inr e ↦ member-Below t k xs b (ground (arith, e, h))
]
