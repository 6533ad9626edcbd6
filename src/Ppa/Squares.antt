-- ===== src/Ppa/Squares.antt =====
-- The objective of scripts/ppa_selection.py after a change, from the delta that `select` computes.
use ummwith_client.Prelude.{
  ℕ, ◌+◌, ◌*◌, ◌<◌, ◌≡◌, refl, ap, sym, subst, ◌∙◌, true, false, Bool-cases, inl, inr, List, [],
  ◌∷◌, if◌then◌else◌, arith,
}
use ummwith_client.Prelude.Int.{ℤ, pos, negsuc, pos_part, neg_part, is_neg, ◌+ℤ◌, ◌*ℤ◌}
use ummwith_client.Ppa.Counter.{
  Resource, same_resource, Counter, count_of, count_more, count_each, count_all, square, objective,
  count_delta, change_delta,
}

module _ (a b : ℤ) where
  pub +ℤ_parts :
      pos_part (a +ℤ b) + neg_part a + neg_part b ≡ neg_part (a +ℤ b) + pos_part a + pos_part b
  unfolding ◌+ℤ◌
  +ℤ_parts = ground arith

  *ℤ_parts :
      pos_part (a *ℤ b) + (pos_part a * neg_part b + neg_part a * pos_part b)
      ≡ neg_part (a *ℤ b) + (pos_part a * pos_part b + neg_part a * neg_part b)
  unfolding ◌*ℤ◌
  *ℤ_parts = ground arith

pub no_parts : (a : ℤ) → pos_part a * neg_part a ≡ 0
no_parts (pos n) = omega arith
no_parts (negsuc n) = omega arith

square_parts : (a : ℤ) → square a ≡ pos_part a * pos_part a + neg_part a * neg_part a
square_parts (pos n) = omega arith
square_parts (negsuc n) = omega arith

count_delta_parts :
    (v n : ℤ)
    → pos_part (count_delta v n) + 2 * (neg_part v * pos_part n) + 2 * (pos_part v * neg_part n)
      ≡ neg_part (count_delta v n)
        + 2 * (pos_part v * pos_part n)
        + 2 * (neg_part v * neg_part n)
        + pos_part n * pos_part n
        + neg_part n * neg_part n
unfolding count_delta
count_delta_parts v n =
    let double = *ℤ_parts (pos 2) v in
    omega (
      arith,
      no_parts n,
      *ℤ_parts (pos 2 *ℤ v) n,
      *ℤ_parts n n,
      +ℤ_parts (pos 2 *ℤ v *ℤ n) (n *ℤ n),
      ap (λ (t : ℕ). t * pos_part n) double,
      ap (λ (t : ℕ). t * neg_part n) double,
    )

square-add :
    (v n : ℤ) → square (v +ℤ n) + neg_part (count_delta v n) ≡ square v + pos_part (count_delta v n)
square-add v n =
    let sum = +ℤ_parts v n in
    let times : (k : ℕ)
        → (pos_part (v +ℤ n) + neg_part v + neg_part n) * k
          ≡ (neg_part (v +ℤ n) + pos_part v + pos_part n) * k =
      λ k. ap (λ (t : ℕ). t * k) sum in
    omega (
      arith,
      count_delta_parts v n,
      square_parts (v +ℤ n),
      square_parts v,
      no_parts (v +ℤ n),
      no_parts v,
      no_parts n,
      times (pos_part (v +ℤ n)),
      times (neg_part (v +ℤ n)),
      times (pos_part v),
      times (neg_part v),
      times (pos_part n),
      times (neg_part n),
    )

zero_add : (n : ℤ) → pos 0 +ℤ n ≡ n
unfolding ◌+ℤ◌
zero_add (pos n) = ground arith
zero_add (negsuc n) = ground arith

pub same_resource_refl : (k : Resource) → same_resource k k ≡ true
unfolding same_resource
same_resource_refl [] = refl
same_resource_refl (x ∷ xs) = ground (arith, same_resource_refl xs)

pub same_resource-eq : (j k : Resource) → same_resource j k ≡ true → j ≡ k
unfolding same_resource
same_resource-eq [] [] h = refl
same_resource-eq [] (y ∷ ys) h = cc h
same_resource-eq (x ∷ xs) [] h = cc h
same_resource-eq (x ∷ xs) (y ∷ ys) h =
    let first : x ≡ y = ground (arith, h) in
    let rest : xs ≡ ys = same_resource-eq xs ys (ground (arith, h)) in λ i. first i ∷ rest i

-- A count after one more entry.
pub count_of-count_more :
    (j k : Resource) (n : ℤ) (c : Counter)
    → count_of j (count_more k n c)
      ≡ (if same_resource k j then count_of j c +ℤ n else count_of j c)
unfolding count_of count_more
count_of-count_more j k n [] = elim (Bool-cases (same_resource k j)) [
  | inl e ↦ rw e (sym (zero_add n))
  | inr e ↦ rw e refl
]
count_of-count_more j k n ((i, v) ∷ rest) = elim (Bool-cases (same_resource i k)) [
  | inl e ↦
      let same : same_resource i j ≡ same_resource k j =
        ap (λ (r : Resource). same_resource r j) (same_resource-eq i k e) in
      rw e (ground (arith, same))
  | inr e ↦ elim (Bool-cases (same_resource i j)) [
    | inl q ↦
        let other : same_resource k j ≡ false = differs (same_resource-eq i j q) e in
        rw (e, q, other) refl
    | inr q ↦ rw (e, q) (count_of-count_more j k n rest)
  ]
]
  where
    differs : {i : Resource} → i ≡ j → same_resource i k ≡ false → same_resource k j ≡ false
    differs {i} q e = elim (Bool-cases (same_resource k j)) [
      | inl r ↦
          let back : same_resource i k ≡ true =
            subst (λ (s : Resource). same_resource i s ≡ true) (q ∙ sym (same_resource-eq k j r))
              (same_resource_refl i) in
          absurd (cc (back, e))
      | inr r ↦ r
    ]

objective-count_more :
    (k : Resource) (n : ℤ) (c : Counter)
    → objective (count_more k n c) + neg_part (count_delta (count_of k c) n)
      ≡ objective c + pos_part (count_delta (count_of k c) n)
unfolding objective count_more count_of
objective-count_more k n [] = omega (arith, square-add (pos 0) n, ap square (zero_add n))
objective-count_more k n ((j, v) ∷ rest) = elim (Bool-cases (same_resource j k)) [
  | inl e ↦ rw e (omega (arith, square-add v n))
  | inr e ↦ rw e (omega (arith, objective-count_more k n rest))
]

-- A key is none of a counter's.
abbrev pub Apart : Resource → Counter → Type 0
Apart k [] = Unit
Apart k ((j, n) ∷ rest) = (same_resource k j ≡ false) × Apart k rest

abbrev pub Separate : Counter → Type 0
Separate [] = Unit
Separate ((k, n) ∷ rest) = Apart k rest × Separate rest

change_delta-Apart :
    (k : Resource) (n : ℤ) (c change : Counter)
    → Apart k change
    → change_delta (count_more k n c) change ≡ change_delta c change
unfolding change_delta
change_delta-Apart k n c [] h = refl
change_delta-Apart k n c ((j, m) ∷ rest) (other, h) =
    let stays : count_of j (count_more k n c) ≡ count_of j c =
      ground (arith, other, count_of-count_more j k n c) in
    λ i. count_delta (stays i) m +ℤ change_delta-Apart k n c rest h i

-- The objective after a change, from the sum of the deltas.
pub objective-count_all :
    (change c : Counter)
    → Separate change
    → objective (count_all change c) + neg_part (change_delta c change)
      ≡ objective c + pos_part (change_delta c change)
unfolding count_all change_delta
objective-count_all [] c h = refl
objective-count_all ((k, n) ∷ rest) c (apart, h) =
    let later : objective (count_all rest (count_more k n c)) + neg_part (change_delta c rest)
        ≡ objective (count_more k n c) + pos_part (change_delta c rest) =
      subst
        (λ (d : ℤ).
          objective (count_all rest (count_more k n c)) + neg_part d
          ≡ objective (count_more k n c) + pos_part d)
        (change_delta-Apart k n c rest apart) (objective-count_all rest (count_more k n c) h) in
    let sum = +ℤ_parts (count_delta (count_of k c) n) (change_delta c rest) in
    omega (arith, later, objective-count_more k n c, sum)

Apart-count_more :
    (j k : Resource) (n : ℤ) (c : Counter)
    → same_resource j k ≡ false
    → Apart j c
    → Apart j (count_more k n c)
unfolding count_more
Apart-count_more j k n [] e h = (e, tt)
Apart-count_more j k n ((i, v) ∷ rest) e (other, h) = elim (Bool-cases (same_resource i k)) [
  | inl q ↦ rw q (other, h)
  | inr q ↦ rw q (other, Apart-count_more j k n rest e h)
]

pub Separate-count_more :
    (k : Resource) (n : ℤ) (c : Counter) → Separate c → Separate (count_more k n c)
unfolding count_more
Separate-count_more k n [] h = (tt, tt)
Separate-count_more k n ((i, v) ∷ rest) (apart, h) = elim (Bool-cases (same_resource i k)) [
  | inl q ↦ rw q (apart, h)
  | inr q ↦ rw q (Apart-count_more i k n rest q apart, Separate-count_more k n rest h)
]

pub Separate-count_each :
    (n : ℤ) (ks : List Resource) (c : Counter) → Separate c → Separate (count_each n ks c)
unfolding count_each
Separate-count_each n [] c h = h
Separate-count_each n (k ∷ ks) c h =
    Separate-count_each n ks (count_more k n c) (Separate-count_more k n c h)

-- A change of negative delta makes the objective smaller.
pub objective-falls :
    (change c : Counter)
    → Separate change
    → is_neg (change_delta c change) ≡ true
    → objective (count_all change c) < objective c
objective-falls change c h e =
    omega (arith, objective-count_all change c h, falls (change_delta c change) e)
  where
    falls : (d : ℤ) → is_neg d ≡ true → (pos_part d ≡ 0) × (0 < neg_part d)
    falls (pos n) e = cc e
    falls (negsuc n) e = (refl, omega arith)
