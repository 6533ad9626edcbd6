-- ===== src/Ppa/Sets.antt =====
-- The sets of scripts/ppa_selection.py as lists: what is in them, and how many.
use ummwith_client.Prelude.{
  ℕ, ◌+◌, ◌≡◌, refl, ap, sym, ◌∙◌, ltb, ◌==◌, ◌&&◌, true, false, not, Bool-cases, inl, inr, List,
  [], ◌∷◌, if◌then◌else◌, length, arith,
}
use ummwith_client.Prelude.SortedSet.{
  member, insert_token, sorted_set, Ascending, member-insert_token, member-Below,
  sorted_set-Ascending,
}
use ummwith_client.Ppa.Pressure.{without, remove_token}

-- No token stands twice.
abbrev pub Once : List ℕ → Type 0
Once [] = Unit
Once (x ∷ xs) = (member x xs ≡ false) × Once xs

-- The sum of a number for each token.
abbrev pub sum_of : (ℕ → ℕ) → List ℕ → ℕ
sum_of f [] = 0
sum_of f (x ∷ xs) = f x + sum_of f xs

-- 1 for a token that is none of these.
abbrev pub one_without : List ℕ → ℕ → ℕ
one_without others t = if member t others then 0 else 1

pub length-without :
    (others ts : List ℕ) → length (without others ts) ≡ sum_of (one_without others) ts
unfolding without
length-without others [] = refl
length-without others (t ∷ ts) = elim (Bool-cases (member t others)) [
  | inl e ↦ rw e (omega (arith, length-without others ts))
  | inr e ↦ rw e (omega (arith, length-without others ts))
]

pub length-sum_of : (ts : List ℕ) → length ts ≡ sum_of (λ t. 1) ts
length-sum_of [] = refl
length-sum_of (t ∷ ts) = omega (arith, length-sum_of ts)

pub member-remove_token :
    (t k : ℕ) (xs : List ℕ) → member k (remove_token t xs) ≡ (if t == k then false else member k xs)
unfolding remove_token
member-remove_token t k [] = ground arith
member-remove_token t k (x ∷ xs) = ground (arith, member-remove_token t k xs)

pub member-without :
    (k : ℕ) (others ts : List ℕ)
    → member k (without others ts) ≡ (not (member k others) && member k ts)
unfolding without
member-without k others [] = ground arith
member-without k others (t ∷ ts) = elim (Bool-cases (t == k)) [
  | inl e ↦
      let same : member t others ≡ member k others =
        ap (λ (x : ℕ). member x others) (ground (arith, e)) in
      elim (Bool-cases (member t others)) [
        | inl q ↦ rw q (ground (arith, member-without k others ts, same, q))
        | inr q ↦ rw q (ground (arith, same, q, e))
      ]
  | inr e ↦ elim (Bool-cases (member t others)) [
    | inl q ↦ rw q (ground (arith, member-without k others ts, e))
    | inr q ↦ rw q (ground (arith, member-without k others ts, e))
  ]
]

-- A new token counts once.
pub sum_of-insert_token :
    (f : ℕ → ℕ) (t : ℕ) (xs : List ℕ)
    → member t xs ≡ false
    → sum_of f (insert_token t xs) ≡ f t + sum_of f xs
unfolding insert_token
sum_of-insert_token f t [] h = refl
sum_of-insert_token f t (x ∷ xs) h = ground (arith, sum_of-insert_token f t xs)

remove_token-absent : (t : ℕ) (xs : List ℕ) → member t xs ≡ false → remove_token t xs ≡ xs
unfolding remove_token
remove_token-absent t [] h = refl
remove_token-absent t (x ∷ xs) h = elim (Bool-cases (x == t)) [
  | inl e ↦ absurd (ground (arith, e, h))
  | inr e ↦ rw e (ap (λ (l : List ℕ). x ∷ l) (remove_token-absent t xs (ground (arith, e, h))))
]

-- A token of the set that is taken away counted once.
pub sum_of-remove_token :
    (f : ℕ → ℕ) (t : ℕ) (xs : List ℕ)
    → member t xs ≡ true
    → Once xs
    → f t + sum_of f (remove_token t xs) ≡ sum_of f xs
unfolding remove_token
sum_of-remove_token f t [] h once = cc h
sum_of-remove_token f t (x ∷ xs) h (first, once) = elim (Bool-cases (x == t)) [
  | inl e ↦
      let key : x ≡ t = ground (arith, e) in
      let gone : remove_token t xs ≡ xs =
        remove_token-absent t xs (ap (λ (k : ℕ). member k xs) (sym key) ∙ first) in
      rw (e, gone) (ap (λ (k : ℕ). f k + sum_of f xs) (sym key))
  | inr e ↦ rw e (omega (arith, sum_of-remove_token f t xs (ground (arith, e, h)) once))
]

pub Once-remove_token : (t : ℕ) (xs : List ℕ) → Once xs → Once (remove_token t xs)
unfolding remove_token
Once-remove_token t [] once = tt
Once-remove_token t (x ∷ xs) (first, once) = elim (Bool-cases (x == t)) [
  | inl e ↦ rw e (Once-remove_token t xs once)
  | inr e ↦ rw e (ground (arith, first, member-remove_token t x xs), Once-remove_token t xs once)
]

pub Once-insert_token :
    (t : ℕ) (xs : List ℕ) → member t xs ≡ false → Once xs → Once (insert_token t xs)
unfolding insert_token
Once-insert_token t [] h once = (refl, tt)
Once-insert_token t (x ∷ xs) h (first, once) = elim (Bool-cases (x == t)) [
  | inl e ↦ absurd (ground (arith, e, h))
  | inr e ↦
      let absent : member t xs ≡ false = ground (arith, e, h) in
      elim (Bool-cases (ltb t x)) [
        | inl l ↦ rw (e, l) (ground (arith, e, absent), (first, once))
        | inr l ↦
            rw (e, l)
              (
                ground (arith, e, first, member-insert_token t x xs),
                Once-insert_token t xs absent once,
              )
      ]
]

Ascending-Once : (xs : List ℕ) → Ascending xs → Once xs
Ascending-Once [] h = tt
Ascending-Once (x ∷ xs) (below, h) = (
  elim (Bool-cases (member x xs)) [
    | inl e ↦ absurd (omega (arith, member-Below x x xs below e))
    | inr e ↦ e
  ],
  Ascending-Once xs h,
)

pub sorted_set-Once : (ts : List ℕ) → Once (sorted_set ts)
sorted_set-Once ts = Ascending-Once (sorted_set ts) (sorted_set-Ascending ts)
