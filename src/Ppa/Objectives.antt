-- ===== src/Ppa/Objectives.antt =====
-- The objective of scripts/ppa_selection.py depends on the counts alone.
use ummwith_client.Prelude.{
  ℕ, ◌+◌, ◌==◌, ◌≡◌, refl, ap, sym, subst, ◌∙◌, true, false, Bool-cases, inl, inr, some,
  Option-cases, List, [], ◌∷◌, if◌then◌else◌, arith, Error, ok, err,
}
use ummwith_client.Prelude.Int.{pos}
use ummwith_client.Prelude.Dict.{dict_get}
use ummwith_client.Prelude.SortedSet.{member}
use ummwith_client.Ppa.Counter.{
  Resource, same_resource, Counter, count_of, count_more, count_each, count_all, square, objective,
}
use ummwith_client.Ppa.Squares.{
  same_resource_refl, same_resource-eq, Apart, Separate, Separate-count_each, Separate-count_more,
}
use ummwith_client.Ppa.Mapping.{Row, resources}
use ummwith_client.Ppa.Pressure.{pressure}
use ummwith_client.Ppa.Recount.{absent_count}

drop_key : Resource → Counter → Counter
drop_key k [] = []
drop_key k ((j, v) ∷ rest) = if same_resource k j then drop_key k rest else (j, v) ∷ drop_key k rest

drop_key-Apart : (k : Resource) (c : Counter) → Apart k c → drop_key k c ≡ c
unfolding drop_key
drop_key-Apart k [] h = refl
drop_key-Apart k ((j, v) ∷ rest) (other, h) =
    rw other (ap (λ (c : Counter). (j, v) ∷ c) (drop_key-Apart k rest h))

Apart-drop_key : (i k : Resource) (c : Counter) → Apart i c → Apart i (drop_key k c)
unfolding drop_key
Apart-drop_key i k [] h = tt
Apart-drop_key i k ((j, v) ∷ rest) (other, h) = elim (Bool-cases (same_resource k j)) [
  | inl e ↦ rw e (Apart-drop_key i k rest h)
  | inr e ↦ rw e (other, Apart-drop_key i k rest h)
]

Separate-drop_key : (k : Resource) (c : Counter) → Separate c → Separate (drop_key k c)
unfolding drop_key
Separate-drop_key k [] s = tt
Separate-drop_key k ((j, v) ∷ rest) (apart, s) = elim (Bool-cases (same_resource k j)) [
  | inl e ↦ rw e (Separate-drop_key k rest s)
  | inr e ↦ rw e (Apart-drop_key j k rest apart, Separate-drop_key k rest s)
]

same_resource_comm : (j k : Resource) → same_resource j k ≡ same_resource k j
unfolding same_resource
same_resource_comm [] [] = refl
same_resource_comm [] (y ∷ ys) = refl
same_resource_comm (x ∷ xs) [] = refl
same_resource_comm (x ∷ xs) (y ∷ ys) = ground (arith, same_resource_comm xs ys)

-- Two names of one resource compare alike with a third.
same_side : (j k i : Resource) → same_resource j k ≡ true → same_resource j i ≡ same_resource k i
same_side j k i e = ap (λ (r : Resource). same_resource r i) (same_resource-eq j k e)

count_of-drop_key :
    (j k : Resource) (c : Counter)
    → count_of j (drop_key k c) ≡ (if same_resource k j then pos 0 else count_of j c)
unfolding drop_key count_of
count_of-drop_key j k [] = ground arith
count_of-drop_key j k ((i, v) ∷ rest) = elim (Bool-cases (same_resource k i)) [
  | inl e ↦ rw e (ground (arith, same_side k i j e, count_of-drop_key j k rest))
  | inr e ↦ elim (Bool-cases (same_resource i j)) [
    | inl q ↦
        let other : same_resource k j ≡ false =
          same_resource_comm k j ∙ sym (same_side i j k q) ∙ same_resource_comm i k ∙ e in
        rw (e, q, other) refl
    | inr q ↦ rw (e, q) (count_of-drop_key j k rest)
  ]
]

-- A key that is taken out takes its square with it.
objective-drop_key :
    (k : Resource) (c : Counter)
    → Separate c
    → objective c ≡ square (count_of k c) + objective (drop_key k c)
unfolding objective drop_key count_of
objective-drop_key k [] s = omega arith
objective-drop_key k ((j, v) ∷ rest) (apart, s) = elim (Bool-cases (same_resource j k)) [
  | inl e ↦
      let back : same_resource k j ≡ true = same_resource_comm k j ∙ e in
      let here : Apart k rest =
        subst (λ (r : Resource). Apart r rest) (same_resource-eq j k e) apart in
      rw (e, back) (ap (λ (c : Counter). square v + objective c) (sym (drop_key-Apart k rest here)))
  | inr e ↦
      let back : same_resource k j ≡ false = same_resource_comm k j ∙ e in
      rw (e, back) (omega (arith, objective-drop_key k rest s))
]

nothing_left :
    (d : Counter) → Separate d → ((j : Resource) → count_of j d ≡ pos 0) → objective d ≡ 0
unfolding objective count_of
nothing_left [] s h = refl
nothing_left ((k, v) ∷ rest) (apart, s) h =
    let zero_here : v ≡ pos 0 = ground (arith, h k, same_resource_refl k) in
    omega (arith, ap square zero_here, nothing_left rest s later)
  where
    later : (j : Resource) → count_of j rest ≡ pos 0
    later j = elim (Bool-cases (same_resource k j)) [
      | inl e ↦ absent_count j k rest e apart
      | inr e ↦ ground (arith, e, h j)
    ]

-- Counters that agree in each count have the same objective.
pub objective_same :
    (c d : Counter)
    → Separate c
    → Separate d
    → ((j : Resource) → count_of j c ≡ count_of j d)
    → objective c ≡ objective d
unfolding objective count_of
objective_same [] d s t h = sym (nothing_left d t (λ j. sym (h j)))
objective_same ((k, v) ∷ rest) d (apart, s) t h =
    let here : count_of k d ≡ v = sym (ground (arith, h k, same_resource_refl k)) in
    let later = objective_same rest (drop_key k d) s (Separate-drop_key k d t) rest_same in
    omega (arith, later, ap square here, objective-drop_key k d t)
  where
    rest_same : (j : Resource) → count_of j rest ≡ count_of j (drop_key k d)
    rest_same j = elim (Bool-cases (same_resource k j)) [
      | inl e ↦ absent_count j k rest e apart ∙ sym (ground (arith, e, count_of-drop_key j k d))
      | inr e ↦ ground (arith, e, h j, count_of-drop_key j k d)
    ]

pub Separate-count_all : (change c : Counter) → Separate c → Separate (count_all change c)
unfolding count_all
Separate-count_all [] c s = s
Separate-count_all ((k, n) ∷ rest) c s =
    Separate-count_all rest (count_more k n c) (Separate-count_more k n c s)

-- With a row for each token, `pressure` returns.
pub pressure_total :
    (info : List (ℕ × Row ℕ)) (ts : List ℕ) (c : Counter)
    → Separate c
    → ((t : ℕ) → member t ts ≡ true → (row : Row ℕ) × (dict_get t info ≡ some row))
    → (loads : Counter) × (pressure info ts c ≡ ok loads) × Separate loads
unfolding pressure
pressure_total info [] c s known = (c, refl, s)
pressure_total info (t ∷ ts) c s known =
    let (row, found) = known t (ground arith) in
    let (loads, counts, separate) =
      pressure_total info ts (count_each (pos 1) (resources row) c)
        (Separate-count_each (pos 1) (resources row) c s)
        (λ u there. known u (ground (arith, there))) in
    (loads, rw (found, pressure) counts, separate)

-- Where `pressure` returns, each token has a row, and no key of the counter stands twice.
pub pressure-known :
    (info : List (ℕ × Row ℕ)) (ts : List ℕ) (c loads : Counter)
    → pressure info ts c ≡ ok loads
    → (t : ℕ) → member t ts ≡ true
    → (row : Row ℕ) × (dict_get t info ≡ some row)
unfolding pressure
pressure-known info [] c loads e t there = cc there
pressure-known info (u ∷ ts) c loads e t there = elim (Option-cases (dict_get u info)) [
  | inl q ↦ absurd (raised (rw (q, pressure) at e))
  | inr (row, q) ↦ elim (Bool-cases (u == t)) [
    | inl same ↦ (row, ap (λ (k : ℕ). dict_get k info) (sym (first same)) ∙ q)
    | inr other ↦
        pressure-known info ts (count_each (pos 1) (resources row) c) loads (rw (q, pressure) at e)
          t (ground (arith, there, other))
  ]
]
  where
    raised : {x : Error} → err x ≡ ok loads → ⊥
    raised e = cc

    first : (u == t) ≡ true → u ≡ t
    first same = ground (arith, same)

pub pressure-Separate :
    (info : List (ℕ × Row ℕ)) (ts : List ℕ) (loads : Counter)
    → pressure info ts [] ≡ ok loads
    → Separate loads
pressure-Separate info ts loads e =
    let (loads', e', separate) = pressure_total info ts [] tt (pressure-known info ts [] loads e) in
    subst Separate (same loads' (sym e' ∙ e)) separate
  where
    same : (loads' : Counter) → ok loads' ≡ ok loads → loads' ≡ loads
    same loads' e = cc
