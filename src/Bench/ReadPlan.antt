-- ===== src/Bench/ReadPlan.antt =====
-- `plan_rows` of bmpclient/bench/single_ssd.py: the distinct rows that a batch wants, the place of each
-- wanted token among them, and the runs of consecutive rows that are read at once.
use ummwith_client.Prelude.{
  ℕ, suc, ◌+◌, ◌/◌, ltb, ◌==◌, ◌&&◌, Bool, Option, none, some, List, [], ◌∷◌, if◌then◌else◌, Result,
  ok, err, key_error,
}
use ummwith_client.Prelude.SortedSet.{sorted_set}
use ummwith_client.Bench.MultiDevice.{page}

pub record Run : Type 0 where
  pub start : ℕ
  pub dst : ℕ
  pub count : ℕ

-- `[base + t for t in indices]`
abbrev pub wanted : ℕ → List ℕ → List ℕ
wanted base [] = []
wanted base (t ∷ ts) = (base + t) ∷ wanted base ts

-- `lookup`: the place of a row among the rows, from `i` on.
unfoldable pub place_of : ℕ → ℕ → List ℕ → Option ℕ
place_of i row [] = none
place_of i row (x ∷ xs) = if x == row then some i else place_of (suc i) row xs

-- `[lookup[base + t] for t in indices]`
unfoldable pub slots_of : List ℕ → List ℕ → Result (List ℕ)
unfolding place_of
slots_of rows [] = ok []
slots_of rows (w ∷ ws) = elim (place_of 0 w rows) [
  | none ↦ err key_error
  | some i ↦ elim (slots_of rows ws) [ err e ↦ err e | ok slots ↦ ok (i ∷ slots) ]
]

-- The body of the loop over the rows; the runs stand with the last one first.
unfoldable pub add_row : Bool → ℕ → ℕ → ℕ → List Run → List Run
add_row merge max_rows at row [] = record { start = row; dst = at; count = 1 } ∷ []
add_row merge max_rows at row (last ∷ runs) =
    if merge && (row == last.start + last.count) && ltb last.count max_rows
    then record last { count = last.count + 1 } ∷ runs
    else record { start = row; dst = at; count = 1 } ∷ last ∷ runs

-- The loop, from place `at` on.
unfoldable pub add_rows : Bool → ℕ → ℕ → List ℕ → List Run → List Run
unfolding add_row
add_rows merge max_rows at [] runs = runs
add_rows merge max_rows at (row ∷ rows) runs =
    add_rows merge max_rows (suc at) rows (add_row merge max_rows at row runs)

-- The runs in their order.
unfoldable pub in_order : List Run → List Run → List Run
in_order [] done = done
in_order (r ∷ runs) done = in_order runs (r ∷ done)

unfoldable pub plan_rows : List ℕ → ℕ → Bool → ℕ → Result (List ℕ × List ℕ × List Run)
unfolding sorted_set slots_of add_rows in_order
plan_rows indices base merge max_read =
    let rows = sorted_set (wanted base indices) in
    elim (slots_of rows (wanted base indices)) [
      | err e ↦ err e
      | ok slots ↦ ok (rows, slots, in_order (add_rows merge (max_read / page) 0 rows []) [])
    ]
