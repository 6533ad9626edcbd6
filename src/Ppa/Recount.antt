-- ===== src/Ppa/Recount.antt =====
-- The counts that `select` of scripts/ppa_selection.py keeps by changes, against counts made anew by
-- `pressure`.
use ummwith_client.Prelude.{
  ℕ, ◌+◌, ◌*◌, ◌≡◌, refl, ap, sym, subst, ◌∙◌, true, false, Bool-cases, inl, inr, none, some,
  Option-cases, List, [], ◌∷◌, if◌then◌else◌, arith, Error, ok, err,
}
use ummwith_client.Prelude.Int.{ℤ, pos, negsuc, pos_part, neg_part, ◌+ℤ◌}
use ummwith_client.Prelude.Dict.{dict_get}
use ummwith_client.Ppa.Counter.{
  Resource, same_resource, Counter, count_of, count_more, count_each, count_all,
}
use ummwith_client.Ppa.Squares.{
  +ℤ_parts, same_resource_refl, same_resource-eq, count_of-count_more, Apart, Separate,
}
use ummwith_client.Ppa.Mapping.{Row, resources}
use ummwith_client.Ppa.Pressure.{pressure, change_of}
use ummwith_client.Ppa.Sets.{sum_of}

-- An integer is x - y.
abbrev pub Is : ℤ → ℕ → ℕ → Type 0
Is a x y = pos_part a + y ≡ neg_part a + x

pub Is-unique : (a b : ℤ) (x y : ℕ) → Is a x y → Is b x y → a ≡ b
Is-unique (pos a) (pos b) x y h k = ap pos (omega (arith, h, k))
Is-unique (pos a) (negsuc b) x y h k = absurd (omega (arith, h, k))
Is-unique (negsuc a) (pos b) x y h k = absurd (omega (arith, h, k))
Is-unique (negsuc a) (negsuc b) x y h k = ap negsuc (omega (arith, h, k))

-- How often a resource is among some.
abbrev pub hits_of : Resource → List Resource → ℕ
hits_of j [] = 0
hits_of j (k ∷ ks) = (if same_resource k j then 1 else 0) + hits_of j ks

more-Is :
    (j k : Resource) (n : ℤ) (c : Counter) (x y : ℕ)
    → Is (count_of j c) x y
    → Is
        (count_of j (count_more k n c))
        (x + (if same_resource k j then 1 else 0) * pos_part n)
        (y + (if same_resource k j then 1 else 0) * neg_part n)
more-Is j k n c x y h = elim (Bool-cases (same_resource k j)) [
  | inl e ↦
      let more : count_of j (count_more k n c) ≡ count_of j c +ℤ n =
        ground (arith, e, count_of-count_more j k n c) in
      rw (more, e) (omega (arith, h, +ℤ_parts (count_of j c) n))
  | inr e ↦
      let same : count_of j (count_more k n c) ≡ count_of j c =
        ground (arith, e, count_of-count_more j k n c) in
      rw (same, e) (omega (arith, h))
]

pub each-Is :
    (j : Resource) (n : ℤ) (ks : List Resource) (c : Counter) (x y : ℕ)
    → Is (count_of j c) x y
    → Is
        (count_of j (count_each n ks c))
        (x + hits_of j ks * pos_part n)
        (y + hits_of j ks * neg_part n)
unfolding count_each
each-Is j n [] c x y h = omega (arith, h)
each-Is j n (k ∷ ks) c x y h =
    omega (arith, each-Is j n ks (count_more k n c) _ _ (more-Is j k n c x y h))

pub absent_count :
    (j k : Resource) (c : Counter) → same_resource k j ≡ true → Apart k c → count_of j c ≡ pos 0
unfolding count_of
absent_count j k [] e h = refl
absent_count j k ((i, v) ∷ rest) e (other, h) =
    let same : same_resource k i ≡ same_resource j i =
      ap (λ (r : Resource). same_resource r i) (same_resource-eq k j e) in
    elim (Bool-cases (same_resource i j)) [
      | inl q ↦
          let back : same_resource i i ≡ false =
            ap (λ (r : Resource). same_resource r i) (same_resource-eq i j q) ∙ sym same ∙ other in
          absurd (cc (back, same_resource_refl i))
      | inr q ↦ rw q (absent_count j k rest e h)
    ]

-- A change of a counter, in each count.
pub all-Is :
    (j : Resource) (change c : Counter) (x y u v : ℕ)
    → Separate change
    → Is (count_of j c) x y
    → Is (count_of j change) u v
    → Is (count_of j (count_all change c)) (x + u) (y + v)
unfolding count_all count_of
all-Is j [] c x y u v s h k = omega (arith, h, k)
all-Is j ((i, n) ∷ rest) c x y u v (apart, s) h k = elim (Bool-cases (same_resource i j)) [
  | inl e ↦
      let none_left : Is (count_of j rest) 0 0 = rw (absent_count j i rest e apart) refl in
      let first : Is n u v = ground (arith, e, k) in
      let more : count_of j (count_more i n c) ≡ count_of j c +ℤ n =
        ground (arith, e, count_of-count_more j i n c) in
      let next : Is (count_of j (count_more i n c)) (x + u) (y + v) =
        subst (λ (a : ℤ). Is a (x + u) (y + v)) (sym more)
          (omega (arith, h, first, +ℤ_parts (count_of j c) n)) in
      omega (arith, all-Is j rest (count_more i n c) (x + u) (y + v) 0 0 s next none_left)
  | inr e ↦
      let first : Is (count_of j rest) u v = ground (arith, e, k) in
      let same : count_of j (count_more i n c) ≡ count_of j c =
        ground (arith, e, count_of-count_more j i n c) in
      all-Is j rest (count_more i n c) x y u v s (subst (λ (a : ℤ). Is a x y) (sym same) h) first
]

-- What a token adds to a count, by its row.
abbrev pub row_hits : List (ℕ × Row ℕ) → Resource → ℕ → ℕ
row_hits info j t = elim (dict_get t info) [ none ↦ 0 | some row ↦ hits_of j (resources row) ]

pub change_of-Is :
    (j : Resource) (old new : Row ℕ)
    → Is (count_of j (change_of old new)) (hits_of j (resources new)) (hits_of j (resources old))
unfolding change_of
change_of-Is j old new =
    let added = each-Is j (pos 1) (resources new) [] 0 0 (unfold count_of in refl) in
    let taken =
      each-Is j (negsuc 0) (resources old) (count_each (pos 1) (resources new) []) _ _ added in
    omega (arith, taken)

-- `pressure` counts each resource of each token, and has each key once.
pub pressure-Is :
    (info : List (ℕ × Row ℕ)) (j : Resource) (ts : List ℕ) (c loads : Counter) (x y : ℕ)
    → Is (count_of j c) x y
    → pressure info ts c ≡ ok loads
    → Is (count_of j loads) (x + sum_of (row_hits info j) ts) y
unfolding pressure
pressure-Is info j [] c loads x y h e =
    subst (λ (l : Counter). Is (count_of j l) (x + 0) y) (same e) (omega (arith, h))
  where
    same : ok c ≡ ok loads → c ≡ loads
    same e = cc
pressure-Is info j (t ∷ ts) c loads x y h e = elim (Option-cases (dict_get t info)) [
  | inl q ↦ absurd (raised (rw (q, pressure) at e))
  | inr (row, q) ↦
      let next = each-Is j (pos 1) (resources row) c x y h in
      let later : pressure info ts (count_each (pos 1) (resources row) c) ≡ ok loads =
        rw (q, pressure) at e in
      let counted : row_hits info j t ≡ hits_of j (resources row) = rw (q, row_hits) refl in
      omega (
        arith,
        counted,
        pressure-Is info j ts (count_each (pos 1) (resources row) c) loads _ _ next later,
      )
]
  where
    raised : {x : Error} → err x ≡ ok loads → ⊥
    raised e = cc
