-- ===== src/Bench/Extents.antt =====
-- The extents of `PoolClient` of bmpclient/bench/layout_replay.py against those that the native pool holds.
use ummwith_client.Prelude.{
  ℕ, ◌+◌, ◌≡◌, refl, ap, sym, subst, ◌∙◌, inl, inr, ◌==◌, ◌&&◌, false, Bool-cases, none, some, List,
  [], ◌∷◌, if◌then◌else◌, arith,
}
use ummwith_client.Prelude.Dict.{dict_get, dict_set, dict_del, dict_get-dict_set, dict_get-dict_del}

abbrev pub Extents : Type 0
Extents = List (ℕ × (ℕ × ℕ))

-- 1 for the same range, else 0.
abbrev pub one_range : ℕ × ℕ → ℕ × ℕ → ℕ
one_range (a, b) (c, d) = if (a == c) && (b == d) then 1 else 0

-- How often a range is an extent.
abbrev pub uses : Extents → ℕ × ℕ → ℕ
uses [] r = 0
uses ((k, v) ∷ rest) r = one_range v r + uses rest r

-- Each id stands once.
abbrev pub Distinct : Extents → Type 0
Distinct [] = Unit
Distinct ((k, v) ∷ rest) = (dict_get k rest ≡ none) × Distinct rest

not_none : (v : ℕ × ℕ) → ¬ (some v ≡ none)
not_none v e = cc

other_key :
    (k j : ℕ) (w : ℕ × ℕ) (rest : Extents)
    → dict_get k ((j, w) ∷ rest) ≡ none
    → ((j == k) ≡ false) × (dict_get k rest ≡ none)
unfolding dict_get
other_key k j w rest h = elim (Bool-cases (j == k)) [
  | inl e ↦ absurd (not_none w (ground (arith, e, h)))
  | inr e ↦ (e, ground (arith, e, h))
]

pub uses-dict_set :
    (k : ℕ) (v : ℕ × ℕ) (d : Extents) (r : ℕ × ℕ)
    → dict_get k d ≡ none
    → uses (dict_set k v d) r ≡ one_range v r + uses d r
unfolding dict_set
uses-dict_set k v [] r h = refl
uses-dict_set k v ((j, w) ∷ rest) r h =
    let (e, absent) = other_key k j w rest h in
    rw e (omega (arith, uses-dict_set k v rest r absent))

pub Distinct-dict_set :
    (k : ℕ) (v : ℕ × ℕ) (d : Extents) → dict_get k d ≡ none → Distinct d → Distinct (dict_set k v d)
unfolding dict_set
Distinct-dict_set k v [] h u = (unfold dict_get in refl, tt)
Distinct-dict_set k v ((j, w) ∷ rest) h (first, u) =
    let (e, absent) = other_key k j w rest h in
    let there : dict_get j (dict_set k v rest) ≡ dict_get j rest =
      ground (arith, e, dict_get-dict_set k j v rest) in
    rw e (there ∙ first, Distinct-dict_set k v rest absent u)

dict_del-absent : (k : ℕ) (d : Extents) → dict_get k d ≡ none → dict_del k d ≡ d
unfolding dict_del
dict_del-absent k [] h = refl
dict_del-absent k ((j, w) ∷ rest) h =
    let (e, absent) = other_key k j w rest h in
    rw e (ap (λ (d : Extents). (j, w) ∷ d) (dict_del-absent k rest absent))

pub uses-dict_del :
    (k : ℕ) (v : ℕ × ℕ) (d : Extents) (r : ℕ × ℕ)
    → dict_get k d ≡ some v
    → Distinct d
    → one_range v r + uses (dict_del k d) r ≡ uses d r
unfolding dict_get dict_del
uses-dict_del k v [] r h u = absurd (cc h)
uses-dict_del k v ((j, w) ∷ rest) r h (first, u) = elim (Bool-cases (j == k)) [
  | inl e ↦
      let same : w ≡ v = some_pair w v (ground (arith, e, h)) in
      let key : j ≡ k = ground (arith, e) in
      let gone : dict_del k rest ≡ rest =
        dict_del-absent k rest (subst (λ (x : ℕ). dict_get x rest ≡ none) key first) in
      rw (e, gone) (ap (λ (x : ℕ × ℕ). one_range x r + uses rest r) (sym same))
  | inr e ↦ rw e (omega (arith, uses-dict_del k v rest r (ground (arith, e, h)) u))
]
  where
    some_pair : (x y : ℕ × ℕ) → some x ≡ some y → x ≡ y
    some_pair x y e = cc

pub Distinct-dict_del : (k : ℕ) (d : Extents) → Distinct d → Distinct (dict_del k d)
unfolding dict_del
Distinct-dict_del k [] u = tt
Distinct-dict_del k ((j, w) ∷ rest) (first, u) = elim (Bool-cases (j == k)) [
  | inl e ↦ rw e (Distinct-dict_del k rest u)
  | inr e ↦ rw e (absent_after k j rest first, Distinct-dict_del k rest u)
]
  where
    absent_after :
        (k j : ℕ) (rest : Extents) → dict_get j rest ≡ none → dict_get j (dict_del k rest) ≡ none
    absent_after k j rest h = ground (arith, h, dict_get-dict_del k j rest)
