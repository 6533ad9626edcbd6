-- ===== src/Ppa/Counter.antt =====
-- `Counter` of Python as scripts/ppa_selection.py uses it: the dict from a resource to a count, in the order
-- of insertion. A resource is the tuple of numbers that leads to it. `objective` is the static proxy.
use ummwith_client.Prelude.{
  ℕ, suc, ◌+◌, ◌*◌, ◌==◌, ◌&&◌, Bool, true, false, List, [], ◌∷◌, if◌then◌else◌,
}
use ummwith_client.Prelude.Int.{ℤ, pos, negsuc, ◌+ℤ◌, ◌*ℤ◌}

abbrev pub Resource : Type 0
Resource = List ℕ

-- Equality of tuples.
unfoldable pub same_resource : Resource → Resource → Bool
same_resource [] [] = true
same_resource [] (y ∷ ys) = false
same_resource (x ∷ xs) [] = false
same_resource (x ∷ xs) (y ∷ ys) = (x == y) && same_resource xs ys

abbrev pub Counter : Type 0
Counter = List (Resource × ℤ)

-- `loads[k]`, which is 0 for a missing key.
unfoldable pub count_of : Resource → Counter → ℤ
count_of k [] = pos 0
count_of k ((j, v) ∷ rest) = if same_resource j k then v else count_of k rest

-- `counts[k] = counts.get(k, 0) + n`
unfoldable pub count_more : Resource → ℤ → Counter → Counter
count_more k n [] = (k, n) ∷ []
count_more k n ((j, v) ∷ rest) =
    if same_resource j k then (j, v +ℤ n) ∷ rest else (j, v) ∷ count_more k n rest

-- `counts.update(keys)`, with 1, and `counts.subtract(keys)`, with -1.
unfoldable pub count_each : ℤ → List Resource → Counter → Counter
unfolding count_more
count_each n [] c = c
count_each n (k ∷ ks) c = count_each n ks (count_more k n c)

-- `loads.update(change)` of a counter
unfoldable pub count_all : Counter → Counter → Counter
unfolding count_more
count_all [] c = c
count_all ((k, n) ∷ change) c = count_all change (count_more k n c)

abbrev pub square : ℤ → ℕ
square (pos n) = n * n
square (negsuc n) = suc n * suc n

-- `objective`
unfoldable pub objective : Counter → ℕ
objective [] = 0
objective ((k, v) ∷ rest) = square v + objective rest

-- `2*loads[k]*n + n*n`
unfoldable pub count_delta : ℤ → ℤ → ℤ
count_delta v n = pos 2 *ℤ v *ℤ n +ℤ n *ℤ n

-- `sum(2*loads[k]*n+n*n for k,n in change.items())`
unfoldable pub change_delta : Counter → Counter → ℤ
unfolding count_delta count_of
change_delta loads [] = pos 0
change_delta loads ((k, n) ∷ change) = count_delta (count_of k loads) n +ℤ change_delta loads change
