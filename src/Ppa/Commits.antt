-- ===== src/Ppa/Commits.antt =====
-- What a commit leaves in the cache of scripts/ppa_selection.py.
use ummwith_client.Prelude.{
  ℕ, zero, suc, ◌+◌, ◌-◌, ◌≤◌, ◌<◌, ◌≡◌, refl, ap, sym, ◌∙◌, inl, inr, ltb, true, false, List, [],
  ◌∷◌, ◌++◌, if◌then◌else◌, length, drop, arith, length-drop, length-append, Bool-cases, ltb→lt,
  Result, ok, err, value_error,
}
use mathlib.Core.Bool.{Bool-discrete}
use mathlib.Core.List.{append_assoc, append-nil, filter}
use ummwith_client.Prelude.SortedSet.{
  member, sorted_set, Ascending, member-sorted_set, sorted_set-Ascending, member-Below,
}
use ummwith_client.Ppa.BatchLru.{pop_all, evict, set_rows, commit}

drop_empty : (n : ℕ) → drop {A = ℕ} n [] ≡ []
drop_empty zero = refl
drop_empty (suc n) = refl

-- The eviction drops the oldest rows.
evict-drop :
    (capacity n : ℕ) (rows : List ℕ)
    → n ≤ capacity
    → evict capacity n rows ≡ drop (length rows + n - capacity) rows
unfolding evict
evict-drop capacity n [] h = sym (drop_empty (0 + n - capacity))
evict-drop capacity n (x ∷ xs) h = elim (Bool-cases (ltb capacity (suc (length xs) + n))) [
  | inl e ↦
      let more : suc (length xs) + n - capacity ≡ suc (length xs + n - capacity) =
        ground (arith, e) in
      rw (e, more) (evict-drop capacity n xs h)
  | inr e ↦
      let enough : suc (length xs) + n - capacity ≡ 0 = ground (arith, e) in rw (e, enough) refl
]

member-pop_all :
    (k : ℕ) (chosen rows : List ℕ) → member k chosen ≡ true → member k (pop_all chosen rows) ≡ false
unfolding pop_all
member-pop_all k chosen [] h = refl
member-pop_all k chosen (x ∷ xs) h =
    ground (arith, h, member-pop_all k chosen xs h, ap (λ (y : ℕ). member y chosen))

member-drop : (k n : ℕ) (rows : List ℕ) → member k rows ≡ false → member k (drop n rows) ≡ false
member-drop k zero rows h = h
member-drop k (suc n) [] h = refl
member-drop k (suc n) (x ∷ xs) h = member-drop k n xs (ground (arith, h))

member-append :
    (k : ℕ) (xs ys : List ℕ) → member k (xs ++ ys) ≡ (if member k xs then true else member k ys)
member-append k [] ys = refl
member-append k (x ∷ xs) ys = ground (arith, member-append k xs ys)

set_rows-append :
    (chosen rows : List ℕ)
    → Ascending chosen
    → ((k : ℕ) → member k chosen ≡ true → member k rows ≡ false)
    → set_rows chosen rows ≡ rows ++ chosen
unfolding set_rows
set_rows-append [] rows a new = sym (append-nil rows)
set_rows-append (t ∷ ts) rows (b, a) new =
    let fresh : member t rows ≡ false = new t (ground arith) in
    rw fresh (
      set_rows-append ts (rows ++ t ∷ []) a (λ k h.
        ground (
          arith,
          member-append k rows (t ∷ []),
          new k (ground (arith, h)),
          member-Below t k ts b h,
        ))
      ∙ append_assoc rows (t ∷ []) ts)

-- The rows that were not selected.
abbrev pub unselected : List ℕ → List ℕ → List ℕ
unselected selected rows = filter (λ (t : ℕ). Bool-discrete (member t selected) false) rows

pop_all-unselected : (selected rows : List ℕ) → pop_all selected rows ≡ unselected selected rows
unfolding pop_all
pop_all-unselected selected [] = refl
pop_all-unselected selected (x ∷ xs) = elim (Bool-cases (member x selected)) [
  | inl e ↦ rw e (pop_all-unselected selected xs)
  | inr e ↦ rw e (ap (λ (l : List ℕ). x ∷ l) (pop_all-unselected selected xs))
]

-- What a commit comes to.
abbrev pub Committed : ℕ → List ℕ → List ℕ → Result (List ℕ) → Type 0
Committed capacity selected rows (err e) =
    (e ≡ value_error) × (capacity < length (sorted_set selected))
Committed capacity selected rows (ok rows') =
    (length rows' ≤ capacity)
    × ((t : ℕ) → member t selected ≡ true → member t rows' ≡ true)
    × (rows'
        ≡ drop (length (unselected selected rows) + length (sorted_set selected) - capacity)
            (unselected selected rows)
          ++ sorted_set selected)

pop_all-sorted_set :
    (selected rows : List ℕ) → pop_all (sorted_set selected) rows ≡ pop_all selected rows
unfolding pop_all
pop_all-sorted_set selected [] = refl
pop_all-sorted_set selected (x ∷ xs) =
    ground (arith, member-sorted_set x selected, pop_all-sorted_set selected xs)

commit-Committed_fitting :
    (capacity : ℕ) (selected rows : List ℕ)
    → ltb capacity (length (sorted_set selected)) ≡ false
    → Committed capacity selected rows (
        ok (
          set_rows
            (sorted_set selected)
            (evict capacity (length (sorted_set selected)) (pop_all (sorted_set selected) rows))))
commit-Committed_fitting capacity selected rows h =
    let chosen : List ℕ = sorted_set selected in
    let kept : List ℕ = unselected selected rows in
    let left : List ℕ = drop (length kept + length chosen - capacity) kept in
    let room : length chosen ≤ capacity = ground (arith, h) in
    let result : set_rows chosen (evict capacity (length chosen) (pop_all chosen rows))
        ≡ left ++ chosen =
      ap (λ (k : List ℕ). set_rows chosen (evict capacity (length chosen) k))
        (pop_all-sorted_set selected rows ∙ pop_all-unselected selected rows)
      ∙ ap (set_rows chosen) (evict-drop capacity (length chosen) kept room)
      ∙ set_rows-append chosen left (sorted_set-Ascending selected) (λ k m.
        member-drop k (length kept + length chosen - capacity) kept (
          ap (member k) (sym (pop_all-unselected selected rows))
          ∙ member-pop_all k selected rows (sym (member-sorted_set k selected) ∙ m))) in
    rw result (
      omega (
        arith,
        length-append left chosen,
        length-drop (length kept + length chosen - capacity) kept,
        room,
      ),
      λ t m. ground (arith, member-append t left chosen, member-sorted_set t selected, m),
      refl,
    )

-- A commit raises a ValueError exactly when the distinct selected tokens are more than the capacity.
-- Otherwise the cache has at most its capacity of rows, every selected token among them: first, in
-- their order, the rows that were not selected, without as many of the oldest as do not fit, then the
-- selected tokens in ascending order without repetition.
pub commit-Committed :
    (capacity : ℕ) (selected rows : List ℕ)
    → Ascending (sorted_set selected)
      × ((t : ℕ) → member t (sorted_set selected) ≡ member t selected)
      × Committed capacity selected rows (commit capacity selected rows)
unfolding commit
commit-Committed capacity selected rows = (
  sorted_set-Ascending selected,
  λ t. member-sorted_set t selected,
  elim (Bool-cases (ltb capacity (length (sorted_set selected)))) [
    | inl h ↦ rw h (refl, ltb→lt capacity (length (sorted_set selected)) h)
    | inr h ↦ rw h (commit-Committed_fitting capacity selected rows h)
  ],
)
