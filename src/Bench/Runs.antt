-- ===== src/Bench/Runs.antt =====
-- The rows, places and runs of a read plan of bmpclient/bench/single_ssd.py.
use ummwith_client.Prelude.{
  ℕ, zero, suc, ◌+◌, ◌/◌, ◌≤◌, ◌<◌, ◌≡◌, refl, ap, sym, ◌∙◌, max, inl, inr, ltb, ◌==◌, ◌&&◌, Bool,
  true, false, Bool-cases, some, List, [], ◌∷◌, ◌++◌, if◌then◌else◌, get_elem?, arith, ok,
}
use mathlib.Core.List.{append_assoc, append-nil}
use ummwith_client.Prelude.SortedSet.{
  member, sorted_set, Ascending, member-sorted_set, sorted_set-Ascending,
}
use ummwith_client.Bench.MultiDevice.{page}
use ummwith_client.Bench.ReadPlan.{
  Run, wanted, place_of, slots_of, add_row, add_rows, in_order, plan_rows,
}

-- The rows of a run, each with the place that it is read to.
abbrev pub span : ℕ → ℕ → ℕ → List (ℕ × ℕ)
span row at zero = []
span row at (suc n) = (row, at) ∷ span (suc row) (suc at) n

abbrev pub spans : List Run → List (ℕ × ℕ)
spans [] = []
spans (r ∷ runs) = span r.start r.dst r.count ++ spans runs

-- Runs with the last one first.
abbrev spans_back : List Run → List (ℕ × ℕ)
spans_back [] = []
spans_back (r ∷ runs) = spans_back runs ++ span r.start r.dst r.count

-- The rows with their places, from `at` on.
abbrev pub numbered : ℕ → List ℕ → List (ℕ × ℕ)
numbered at [] = []
numbered at (row ∷ rows) = (row, at) ∷ numbered (suc at) rows

-- Each run has a row, and no more than the limit; without merging it has one.
abbrev pub Sized : Bool → ℕ → List Run → Type 0
Sized merge max_rows [] = Unit
Sized merge max_rows (r ∷ runs) =
    (0 < r.count) × (r.count ≤ max 1 (if merge then max_rows else 1)) × Sized merge max_rows runs

-- The last run ends at the place `at`.
abbrev EndsAt : ℕ → List Run → Type 0
EndsAt at [] = Unit
EndsAt at (r ∷ runs) = r.dst + r.count ≡ at

span-last : (row at n : ℕ) → span row at (suc n) ≡ span row at n ++ (row + n, at + n) ∷ []
span-last row at zero =
    let e : row ≡ row + 0 = omega arith in let f : at ≡ at + 0 = omega arith in λ i. (e i, f i) ∷ []
span-last row at (suc n) =
    let e : suc row + n ≡ row + suc n = omega arith in
    let f : suc at + n ≡ at + suc n = omega arith in
    ap (◌∷◌ (row, at))
      (span-last (suc row) (suc at) n ∙ λ i. span (suc row) (suc at) n ++ (e i, f i) ∷ [])

spans_back-in_order :
    (runs done : List Run) → spans (in_order runs done) ≡ spans_back runs ++ spans done
unfolding in_order
spans_back-in_order [] done = refl
spans_back-in_order (r ∷ runs) done =
    spans_back-in_order runs (r ∷ done)
    ∙ sym (append_assoc (spans_back runs) (span r.start r.dst r.count) (spans done))

in_order-Sized :
    (merge : Bool) (max_rows : ℕ) (runs done : List Run)
    → Sized merge max_rows runs
    → Sized merge max_rows done
    → Sized merge max_rows (in_order runs done)
unfolding in_order
in_order-Sized merge m [] done h k = k
in_order-Sized merge m (r ∷ runs) done (p, q, h) k =
    in_order-Sized merge m runs (r ∷ done) h (p, q, k)

module _ (merge : Bool) (m at row : ℕ) where
  -- The test of a joined row.
  joins : Run → Bool
  joins r = merge && (row == r.start + r.count) && ltb r.count m

  add_row-joined :
      (r : Run) (runs : List Run)
      → joins r ≡ true
      → add_row merge m at row (r ∷ runs) ≡ record r { count = r.count + 1 } ∷ runs
  unfolding joins add_row
  add_row-joined r runs e = rw e refl

  add_row-opened :
      (r : Run) (runs : List Run)
      → joins r ≡ false
      → add_row merge m at row (r ∷ runs) ≡ record { start = row; dst = at; count = 1 } ∷ r ∷ runs
  unfolding joins add_row
  add_row-opened r runs e = rw e refl

  -- After a row: its place follows, the last run ends there, and the sizes are kept.
  Added : List Run → List Run → Type 0
  Added runs runs' =
      (spans_back runs' ≡ spans_back runs ++ (row, at) ∷ [])
      × EndsAt (suc at) runs'
      × Sized merge m runs'

  joined-Added :
      (r : Run) (runs : List Run)
      → joins r ≡ true
      → EndsAt at (r ∷ runs)
      → Sized merge m (r ∷ runs)
      → Added (r ∷ runs) (record r { count = r.count + 1 } ∷ runs)
  unfolding joins Added
  joined-Added r runs e ends (p, q, h) =
      let one_more : r.count + 1 ≡ suc r.count = omega arith in
      let here : row ≡ r.start + r.count = ground (arith, e) in
      (
        rw one_more (
            ap (λ l. spans_back runs ++ l)
              (span-last r.start r.dst r.count ∙ λ i.
                span r.start r.dst r.count ++ (sym here i, ends i) ∷ [])
            ∙ sym (append_assoc (spans_back runs) (span r.start r.dst r.count) ((row, at) ∷ []))),
        omega (arith, ends),
        (omega arith, ground (arith, e), h),
      )

  opened-Added :
      (runs : List Run)
      → Sized merge m runs
      → Added runs (record { start = row; dst = at; count = 1 } ∷ runs)
  unfolding Added
  opened-Added runs h = (refl, omega arith, (omega arith, omega arith, h))

  add_row-Added :
      (runs : List Run)
      → EndsAt at runs
      → Sized merge m runs
      → Added runs (add_row merge m at row runs)
  add_row-Added [] ends h = unfold add_row in opened-Added [] h
  add_row-Added (r ∷ runs) ends h = elim (Bool-cases (joins r)) [
    | inl e ↦ rw (add_row-joined r runs e) (joined-Added r runs e ends h)
    | inr e ↦ rw (add_row-opened r runs e) (opened-Added (r ∷ runs) h)
  ]

add_rows-Sized :
    (merge : Bool) (m at : ℕ) (rows : List ℕ) (runs : List Run)
    → EndsAt at runs
    → Sized merge m runs
    → (spans_back (add_rows merge m at rows runs) ≡ spans_back runs ++ numbered at rows)
      × Sized merge m (add_rows merge m at rows runs)
unfolding add_rows Added
add_rows-Sized merge m at [] runs ends h = (sym (append-nil (spans_back runs)), h)
add_rows-Sized merge m at (row ∷ rows) runs ends h =
    let (one, ends', h') = add_row-Added merge m at row runs ends h in
    let (all, sized) =
      add_rows-Sized merge m (suc at) rows (add_row merge m at row runs) ends' h' in
    (
      all
          ∙ ap (λ l. l ++ numbered (suc at) rows) one
          ∙ append_assoc (spans_back runs) ((row, at) ∷ []) (numbered (suc at) rows),
      sized,
    )

place_of-member :
    (i row : ℕ) (rows : List ℕ)
    → member row rows ≡ true
    → (k : ℕ) × (place_of i row rows ≡ some (i + k)) × (get_elem? rows k ≡ some row)
unfolding place_of
place_of-member i row [] h = absurd (cc h)
place_of-member i row (x ∷ rows) h = elim (Bool-cases (x == row)) [
  | inl e ↦ (0, rw e (ap some (omega arith)), ground (arith, e))
  | inr e ↦
      let (k, found, there) = place_of-member (suc i) row rows (ground (arith, h, e)) in
      (suc k, rw e (found ∙ ap some (omega arith)), there)
]

-- Each slot names the row that is wanted there.
abbrev pub Names : List ℕ → List ℕ → List ℕ → Type 0
Names rows [] [] = Unit
Names rows (w ∷ ws) (k ∷ slots) = (get_elem? rows k ≡ some w) × Names rows ws slots
Names rows [] (k ∷ slots) = ⊥
Names rows (w ∷ ws) [] = ⊥

slots_of-Names :
    (rows ws : List ℕ)
    → ((w : ℕ) → member w ws ≡ true → member w rows ≡ true)
    → (slots : List ℕ) × (slots_of rows ws ≡ ok slots) × Names rows ws slots
unfolding slots_of
slots_of-Names rows [] h = ([], refl, tt)
slots_of-Names rows (w ∷ ws) h =
    let (k, found, there) = place_of-member 0 w rows (h w (ground arith)) in
    let (slots, done, names) = slots_of-Names rows ws (λ v m. h v (ground (arith, m))) in
    let first : place_of 0 w rows ≡ some k = found ∙ ap some (omega arith) in
    (k ∷ slots, rw (first, done, slots_of) refl, (there, names))

-- A plan always comes out. Its rows are the wanted rows in ascending order, each once; each wanted
-- token has the slot at which its row stands; and the runs, one after the other, are the rows with
-- their places, without a row between, none longer than the largest read, or than one row if runs are
-- not merged.
pub plan_rows_lem :
    (indices : List ℕ) (base : ℕ) (merge : Bool) (max_read : ℕ)
    → (rows : List ℕ) × (slots : List ℕ) × (runs : List Run) × (plan_rows indices base merge
          max_read
        ≡ ok (rows, slots, runs))
      × Ascending rows
      × ((w : ℕ) → member w rows ≡ member w (wanted base indices))
      × Names rows (wanted base indices) slots
      × (spans runs ≡ numbered 0 rows)
      × Sized merge (max_read / page) runs
unfolding plan_rows
plan_rows_lem indices base merge max_read =
    let ws = wanted base indices in
    let rows = sorted_set ws in
    let same : ((w : ℕ) → member w rows ≡ member w ws) = (λ w. member-sorted_set w ws) in
    let (slots, found, names) = slots_of-Names rows ws (λ w m. same w ∙ m) in
    let (all, sized) = add_rows-Sized merge (max_read / page) 0 rows [] tt tt in
    let runs = add_rows merge (max_read / page) 0 rows [] in
    (
      rows,
      slots,
      in_order runs [],
      rw (found, plan_rows) refl,
      sorted_set-Ascending ws,
      same,
      names,
      spans_back-in_order runs [] ∙ append-nil (spans_back runs) ∙ all,
      in_order-Sized merge (max_read / page) runs [] sized tt,
    )
