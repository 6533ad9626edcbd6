-- ===== src/Bench/Capacities.antt =====
-- The bytes that bmpclient/bench/multi_device.py reserves on a device.
use native.Mathlib.Nat.{div-add-mod', mod-lt}
use ummwith_client.Prelude.{
  ℕ, zero, suc, ◌+◌, ◌-◌, ◌*◌, ◌/◌, ◌%◌, ◌≤◌, ◌<◌, ◌≡◌, ap, subst, ◌∙◌, inl, inr, max, ◌==◌, Bool,
  true, false, some, Bool-cases, List, [], ◌∷◌, if◌then◌else◌, get_elem?, map, arith, ℕ_discrete,
}
use ummwith_client.Prelude.Dict.{dict_get}
use ummwith_client.Bench.MultiDevice.{
  page, Lengths, Rows, no_rows, add_layers, capacity_for, layer_capacities,
}
use ummwith_client.Bench.Sums.{
  placed, Has, AllHas, some_eq, none_eq, no_rows-AllHas, Has-add_layers, add_layers-Counts,
  no_rows-Counts,
}

-- The request has a layer.
abbrev pub mentions : ℕ → Lengths → Bool
mentions req [] = false
mentions req (((r, layer), n) ∷ rest) = if r == req then true else mentions req rest

multiple : (q segment : ℕ) → max segment (q * segment) ≡ max 1 q * segment
multiple zero segment = omega arith
multiple (suc q) segment =
    let some_segments : max 1 (suc q) ≡ suc q = omega arith in
    let one_more : suc q * segment ≡ segment + q * segment = grind arith in
    rw some_segments (omega (arith, one_more))

capacity_for_lem :
    (segment n : ℕ)
    → 0 < segment
    → (n * page ≤ capacity_for segment n)
      × (segment ≤ capacity_for segment n)
      × ((k : ℕ) × (capacity_for segment n ≡ k * segment))
unfolding capacity_for
capacity_for_lem segment n h =
    let x : ℕ = n * page + segment - 1 in
    let whole : x / segment * segment + x % segment ≡ x = div-add-mod' x segment in
    let small : x % segment < segment = mod-lt x h in
    (
      omega (arith, whole, small),
      omega arith,
      (max 1 (x / segment), multiple (x / segment) segment),
    )

dict_get-map :
    (g : List ℕ → List ℕ) (k : ℕ) (xs : List ℕ) (rows : Rows)
    → dict_get k rows ≡ some xs
    → dict_get k (map (λ (entry : ℕ × List ℕ). (entry.0, g entry.1)) rows) ≡ some (g xs)
unfolding dict_get
dict_get-map g k xs [] h = absurd (none_eq xs h)
dict_get-map g k xs ((j, ys) ∷ rest) h = elim (Bool-cases (j == k)) [
  | inl e ↦
      let same : ys ≡ xs = some_eq ys xs (ground (arith, e, h)) in
      rw e (ap (λ (zs : List ℕ). some (g zs)) same)
  | inr e ↦ rw e (dict_get-map g k xs rest (ground (arith, e, h)))
]

Has-mentions :
    (count req : ℕ) (lengths : Lengths) (rows : Rows)
    → mentions req lengths ≡ true
    → AllHas count lengths rows
    → Has req rows
Has-mentions count req [] rows m h = absurd (cc m)
Has-mentions count req (((r, layer), n) ∷ rest) rows m (h, hs) = elim (ℕ_discrete r req) [
  | yes p ↦ subst (λ (k : ℕ). Has k rows) p h
  | no p ↦ Has-mentions count req rest rows (ground (arith, p, m)) hs
]

-- What is reserved on a device for `n` rows.
abbrev pub IsEnough : ℕ → ℕ → ℕ → Type 0
IsEnough segment n capacity =
    (n * page ≤ capacity) × (segment ≤ capacity) × ((k : ℕ) × (capacity ≡ k * segment))

get_elem?-map :
    (g : ℕ → ℕ) (xs : List ℕ) (d a : ℕ)
    → get_elem? xs d ≡ some a
    → get_elem? (map g xs) d ≡ some (g a)
get_elem?-map g [] d a h = absurd (cc h)
get_elem?-map g (x ∷ xs) zero a h = ap (λ (y : ℕ). some (g y)) (cc h)
get_elem?-map g (x ∷ xs) (suc d) a h = get_elem?-map g xs d a h

-- For a request with a layer and a positive segment, the rows of the request on a device are the lengths
-- of its layers that are placed there, and the capacity is a multiple of the segment, at least one
-- segment, and enough for these rows.
pub layer_capacities_lem :
    (segment count req d : ℕ) (lengths : Lengths)
    → 0 < segment
    → d < count
    → mentions req lengths ≡ true
    → (xs : List ℕ) × (capacities : List ℕ) × (capacity : ℕ) × (dict_get req
          (layer_capacities segment lengths count).1
        ≡ some xs)
      × (get_elem? xs d ≡ some (placed count lengths req d))
      × (dict_get req (layer_capacities segment lengths count).0 ≡ some capacities)
      × (get_elem? capacities d ≡ some capacity)
      × IsEnough segment (placed count lengths req d) capacity
unfolding layer_capacities
layer_capacities_lem segment count req d lengths positive inside m =
    let start = no_rows count lengths in
    let has = no_rows-AllHas count lengths in
    let (xs, e) =
      Has-add_layers count lengths req start (Has-mentions count req lengths start m has) in
    let (long, each) =
      add_layers-Counts count lengths (λ r d. 0) start has (no_rows-Counts count lengths) req xs
        e in
    let row : get_elem? xs d ≡ some (placed count lengths req d) =
      each d inside ∙ ap some (omega arith) in
    (
      xs,
      map (capacity_for segment) xs,
      capacity_for segment (placed count lengths req d),
      e,
      row,
      dict_get-map (map (capacity_for segment)) req xs (add_layers count lengths start) e,
      get_elem?-map (capacity_for segment) xs d (placed count lengths req d) row,
      capacity_for_lem segment (placed count lengths req d) positive,
    )
