-- ===== src/Ppa/BatchLru.antt =====
-- `BatchLRU` of scripts/ppa_selection.py. The rows of the ordered dict are a list, oldest first.
use ummwith_client.Prelude.SortedSet.{member, sorted_set}
use ummwith_client.Prelude.{
  ℕ, ◌+◌, ltb, List, [], ◌∷◌, ◌++◌, if◌then◌else◌, length, Result, ok, err, value_error,
}

-- `for token in selected: self.rows.pop(token, None)`
unfoldable pub pop_all : List ℕ → List ℕ → List ℕ
pop_all selected [] = []
pop_all selected (x ∷ xs) =
    if member x selected then pop_all selected xs else x ∷ pop_all selected xs

-- `while len(self.rows) + len(selected) > self.capacity: self.rows.popitem(last=False)`
unfoldable pub evict : ℕ → ℕ → List ℕ → List ℕ
evict capacity n [] = []
evict capacity n (x ∷ xs) =
    if ltb capacity (length (x ∷ xs) + n) then evict capacity n xs else x ∷ xs

-- `self.rows[token] = None`: a token that is there keeps its place.
abbrev pub set_row : ℕ → List ℕ → List ℕ
set_row t rows = if member t rows then rows else rows ++ t ∷ []

-- `for token in sorted(selected): self.rows[token] = None`
unfoldable pub set_rows : List ℕ → List ℕ → List ℕ
set_rows [] rows = rows
set_rows (t ∷ ts) rows = set_rows ts (set_row t rows)

-- `commit`
unfoldable pub commit : ℕ → List ℕ → List ℕ → Result (List ℕ)
unfolding sorted_set pop_all evict set_rows
commit capacity selected rows =
    let chosen = sorted_set selected in
    if ltb capacity (length chosen)
    then err value_error
    else ok (set_rows chosen (evict capacity (length chosen) (pop_all chosen rows)))
