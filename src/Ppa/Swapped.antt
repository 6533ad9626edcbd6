-- ===== src/Ppa/Swapped.antt =====
-- A swap of two tokens in the set that `select` of scripts/ppa_selection.py builds.
use ummwith_client.Prelude.{
  ℕ, ◌+◌, ◌≡◌, refl, ap, ◌==◌, Bool, true, false, Bool-cases, inl, inr, List, [], ◌∷◌, ◌++◌,
  if◌then◌else◌, arith,
}
use ummwith_client.Prelude.Int.{pos, negsuc}
use ummwith_client.Prelude.SortedSet.{member, insert_token, member-insert_token}
use ummwith_client.Ppa.Counter.{Resource}
use ummwith_client.Ppa.Squares.{Separate, Separate-count_each}
use ummwith_client.Ppa.Mapping.{Row, resources}
use ummwith_client.Ppa.Pressure.{remove_token, change_of}
use ummwith_client.Ppa.Sets.{
  Once, sum_of, member-remove_token, sum_of-insert_token, sum_of-remove_token,
}
use ummwith_client.Ppa.Recount.{row_hits}

pub change_of-Separate : (old new : Row ℕ) → Separate (change_of old new)
unfolding change_of
change_of-Separate old new =
    Separate-count_each (negsuc 0) (resources old) _
      (Separate-count_each (pos 1) (resources new) [] tt)

-- A swap of a token of the set for a new one, in a sum.
pub sum_of-swap :
    (f : ℕ → ℕ) (old new : ℕ) (xs : List ℕ)
    → member old xs ≡ true
    → member new xs ≡ false
    → Once xs
    → f old + sum_of f (insert_token new (remove_token old xs)) ≡ f new + sum_of f xs
sum_of-swap f old new xs there absent once =
    let gone : member new (remove_token old xs) ≡ false =
      ground (arith, absent, member-remove_token old new xs) in
    omega (
      arith,
      sum_of-insert_token f new (remove_token old xs) gone,
      sum_of-remove_token f old xs there once,
    )

pub member-swap :
    (old new t : ℕ) (xs : List ℕ)
    → member t (insert_token new (remove_token old xs))
      ≡ (if new == t then true else if old == t then false else member t xs)
member-swap old new t xs =
    ground (arith, member-insert_token new t (remove_token old xs), member-remove_token old t xs)

-- What a token adds to a count: nothing if it is resident.
abbrev pub miss_hits : List ℕ → List (ℕ × Row ℕ) → Resource → ℕ → ℕ
miss_hits resident info j t = if member t resident then 0 else row_hits info j t

-- Whether a token is selected after some swaps.
abbrev pub swapped_in : ℕ → List (ℕ × ℕ) → Bool → Bool
swapped_in t [] there = there
swapped_in t ((old, new) ∷ rest) there =
    swapped_in t rest (if new == t then true else if old == t then false else there)

pub swapped_in-append :
    (t old new : ℕ) (xs : List (ℕ × ℕ)) (there : Bool)
    → swapped_in t (xs ++ (old, new) ∷ []) there
      ≡ (if new == t then true else if old == t then false else swapped_in t xs there)
swapped_in-append t old new [] there = refl
swapped_in-append t old new ((o, n) ∷ xs) there =
    swapped_in-append t old new xs (if n == t then true else if o == t then false else there)

pub differs : (a b : ℕ) (xs : List ℕ) → member a xs ≡ false → member b xs ≡ true → (a == b) ≡ false
differs a b xs h k = elim (Bool-cases (a == b)) [
  | inl e ↦
      let same : member a xs ≡ member b xs = ap (λ (t : ℕ). member t xs) (ground (arith, e)) in
      absurd (cc (h, k, same))
  | inr e ↦ e
]
