-- ===== src/Ppa/Pressure.antt =====
-- The sets, the sorting and `pressure` of scripts/ppa_selection.py. A set is the list of its tokens, each once.
use ummwith_client.Prelude.{
  ℕ, ◌==◌, ◌&&◌, ◌||◌, Bool, not, none, some, List, [], ◌∷◌, if◌then◌else◌, Result, ok, err,
  key_error,
}
use ummwith_client.Prelude.Int.{ℤ, pos, negsuc, is_neg, ◌+ℤ◌, ◌-ℤ◌, ◌*ℤ◌}
use ummwith_client.Prelude.Dict.{dict_get}
use ummwith_client.Prelude.SortedSet.{member}
use ummwith_client.Ppa.Counter.{Resource, Counter, count_of, count_each}
use ummwith_client.Ppa.Mapping.{Row, resources}

-- The tokens of a set that another does not have, and a set without a token.
unfoldable pub without : List ℕ → List ℕ → List ℕ
without others [] = []
without others (t ∷ ts) = if member t others then without others ts else t ∷ without others ts

unfoldable pub remove_token : ℕ → List ℕ → List ℕ
remove_token t [] = []
remove_token t (x ∷ xs) = if x == t then remove_token t xs else x ∷ remove_token t xs

-- `sorted`, which keeps the order of equal items.
module _ {A : Type 0} (before : A → A → Bool) where
  unfoldable pub insert_by : A → List A → List A
  insert_by x [] = x ∷ []
  insert_by x (y ∷ ys) = if before x y then x ∷ y ∷ ys else y ∷ insert_by x ys

  unfoldable pub sort_by : List A → List A → List A
  unfolding insert_by
  sort_by sorted [] = sorted
  sort_by sorted (x ∷ xs) = sort_by (insert_by x sorted) xs

-- The order of tuples, by their first number and then by the rest.
abbrev pub less_ℤ : ℤ → ℤ → Bool
less_ℤ a b = is_neg (a -ℤ b)

abbrev pub first_by : ℤ → ℤ → Bool → Bool
first_by a b rest = less_ℤ a b || (not (less_ℤ b a) && rest)

-- `pressure`
unfoldable pub pressure : List (ℕ × Row ℕ) → List ℕ → Counter → Result Counter
pressure info [] loads = ok loads
pressure info (t ∷ ts) loads = elim (dict_get t info) [
  | none ↦ err key_error
  | some row ↦ pressure info ts (count_each (pos 1) (resources row) loads)
]

-- The change of a swap: `Counter(ak)`, then `subtract(rk)`.
unfoldable pub change_of : Row ℕ → Row ℕ → Counter
unfolding count_each
change_of old new = count_each (negsuc 0) (resources old) (count_each (pos 1) (resources new) [])

-- `sum(2*loads[k]+d for k in resources(...))`
unfoldable pub load_cost : ℤ → Counter → List Resource → ℤ
unfolding count_of
load_cost d loads [] = pos 0
load_cost d loads (k ∷ ks) = pos 2 *ℤ count_of k loads +ℤ d +ℤ load_cost d loads ks
