-- ===== src/Bench/Sums.antt =====
-- The rows that bmpclient/bench/multi_device.py reserves, against the placement of the layers.
use ummwith_client.Prelude.{
  ℕ, zero, suc, ◌+◌, ◌%◌, ◌<◌, ◌≡◌, refl, ap, subst, ◌∙◌, inl, inr, ◌==◌, ◌&&◌, Option, none, some,
  Option-cases, List, [], ◌∷◌, if◌then◌else◌, length, get_elem?, set, replicate, arith, ℕ_discrete,
  length-replicate, length-set,
}
use ummwith_client.Prelude.Dict.{dict_get, dict_set, dict_get-dict_set}
use ummwith_client.Bench.MultiDevice.{
  Lengths, Rows, no_rows, add_counts, layer_counts, add_layer, add_layers,
}

-- The rows of the layers of a request that are placed on a device.
abbrev pub placed : ℕ → Lengths → ℕ → ℕ → ℕ
placed count [] req d = 0
placed count (((r, layer), n) ∷ rest) req d =
    (if (r == req) && (layer % count == d) then n else 0) + placed count rest req d

-- Each row of counts is that of a function of the request and the device.
abbrev pub Counts : ℕ → (ℕ → ℕ → ℕ) → Rows → Type 0
Counts count f rows =
    (req : ℕ) (xs : List ℕ)
    → dict_get req rows ≡ some xs
    → (length xs ≡ count) × ((d : ℕ) → d < count → get_elem? xs d ≡ some (f req d))

abbrev pub Has : ℕ → Rows → Type 0
Has req rows = (xs : List ℕ) × (dict_get req rows ≡ some xs)

get_elem?-replicate : (n d : ℕ) → d < n → get_elem? {A = ℕ} (replicate n 0) d ≡ some 0
get_elem?-replicate zero d h = absurd (omega (arith, h))
get_elem?-replicate (suc n) zero h = refl
get_elem?-replicate (suc n) (suc d) h = get_elem?-replicate n d (omega arith)

get_elem?-set :
    (xs : List ℕ) (i d v : ℕ)
    → d < length xs
    → get_elem? (set xs i v) d ≡ (if i == d then some v else get_elem? xs d)
get_elem?-set [] i d v h = absurd (omega (arith, h))
get_elem?-set (x ∷ xs) zero zero v h = refl
get_elem?-set (x ∷ xs) zero (suc d) v h = ground arith
get_elem?-set (x ∷ xs) (suc i) zero v h = ground arith
get_elem?-set (x ∷ xs) (suc i) (suc d) v h = ground (arith, get_elem?-set xs i d v (omega arith))

get_elem?-layer_counts :
    (count layer n d : ℕ)
    → d < count
    → get_elem? (layer_counts count layer n) d ≡ some (if layer % count == d then n else 0)
unfolding layer_counts
get_elem?-layer_counts count layer n d h = ground (
  arith,
  get_elem?-set (replicate count 0) (layer % count) d n
      (omega (arith, h, length-replicate {A = ℕ} count 0)),
  get_elem?-replicate count d h,
)

length-layer_counts : (count layer n : ℕ) → length (layer_counts count layer n) ≡ count
unfolding layer_counts
length-layer_counts count layer n =
    length-set (replicate count 0) (layer % count) n ∙ length-replicate {A = ℕ} count 0

length-add_counts : (xs ys : List ℕ) → length (add_counts xs ys) ≡ length xs
unfolding add_counts
length-add_counts [] ys = refl
length-add_counts (x ∷ xs) [] = refl
length-add_counts (x ∷ xs) (y ∷ ys) = ap suc (length-add_counts xs ys)

get_elem?-add_counts :
    (xs ys : List ℕ) (d a b : ℕ)
    → get_elem? xs d ≡ some a
    → get_elem? ys d ≡ some b
    → get_elem? (add_counts xs ys) d ≡ some (a + b)
unfolding add_counts
get_elem?-add_counts [] ys d a b h k = absurd (cc h)
get_elem?-add_counts (x ∷ xs) [] d a b h k = absurd (cc k)
get_elem?-add_counts (x ∷ xs) (y ∷ ys) zero a b h k = ground (arith, h, k)
get_elem?-add_counts (x ∷ xs) (y ∷ ys) (suc d) a b h k = get_elem?-add_counts xs ys d a b h k

pub some_eq : (x y : List ℕ) → some x ≡ some y → x ≡ y
some_eq x y e = cc

pub none_eq : (x : List ℕ) → ¬ (none ≡ some x)
none_eq x e = cc

-- One layer more.
abbrev pub with_layer : ℕ → ℕ → ℕ → ℕ → (ℕ → ℕ → ℕ) → ℕ → ℕ → ℕ
with_layer count req layer n f r d = f r d + (if (req == r) && (layer % count == d) then n else 0)

module _ (count : ℕ) where
  Has-dict_set : (k req : ℕ) (v : List ℕ) (rows : Rows) → Has req rows → Has req (dict_set k v rows)
  Has-dict_set k req v rows (xs, h) = elim (ℕ_discrete k req) [
    | yes p ↦ (v, ground (arith, p, dict_get-dict_set k req v rows))
    | no p ↦ (xs, ground (arith, p, h, dict_get-dict_set k req v rows))
  ]

  add_layer-Counts :
      (req layer n : ℕ) (f : ℕ → ℕ → ℕ) (rows : Rows)
      → Has req rows
      → Counts count f rows
      → Counts count
          (with_layer count req layer n f)
          (add_layer count req (layer_counts count layer n) rows)
  unfolding add_layer
  add_layer-Counts req layer n f rows (xs, here) h r ys e =
      let (long, each) = h req xs here in
      let new : List ℕ = add_counts xs (layer_counts count layer n) in
      let stored : dict_get r (dict_set req new rows) ≡ some ys =
        subst
          (λ (o : Option (List ℕ)).
            dict_get r (elim o [
              | none ↦ rows
              | some zs ↦ dict_set req (add_counts zs (layer_counts count layer n)) rows
            ])
            ≡ some ys)
          here e in
      elim (ℕ_discrete req r) [
        | yes p ↦
            let same : new ≡ ys =
              some_eq new ys (ground (arith, p, stored, dict_get-dict_set req r new rows)) in
            subst
              (λ (zs : List ℕ).
                (length zs ≡ count)
                × ((d : ℕ)
                    → d < count
                    → get_elem? zs d ≡ some (with_layer count req layer n f r d)))
              same
              (
                length-add_counts xs (layer_counts count layer n) ∙ long,
                λ d l.
                    get_elem?-add_counts xs (layer_counts count layer n) d (f req d)
                      (if layer % count == d then n else 0) (each d l)
                      (get_elem?-layer_counts count layer n d l)
                    ∙ ap some (ground (arith, p, ap (λ (q : ℕ). f q d) p)),
              )
        | no p ↦
            let (long', each') =
              h r ys (ground (arith, p, stored, dict_get-dict_set req r new rows)) in
            (long', λ d l. each' d l ∙ ap some (ground (arith, p)))
      ]

  Has-add_layer :
      (k req : ℕ) (counts : List ℕ) (rows : Rows)
      → Has req rows
      → Has req (add_layer count k counts rows)
  unfolding add_layer
  Has-add_layer k req counts rows h = elim (Option-cases (dict_get k rows)) [
    | inl e ↦ rw (e, add_layer) h
    | inr (xs, e) ↦ rw (e, add_layer) (Has-dict_set k req (add_counts xs counts) rows h)
  ]

  abbrev pub AllHas : Lengths → Rows → Type 0
  AllHas [] rows = Unit
  AllHas (((req, layer), n) ∷ rest) rows = Has req rows × AllHas rest rows

  AllHas-add_layer :
      (k : ℕ) (counts : List ℕ) (lengths : Lengths) (rows : Rows)
      → AllHas lengths rows
      → AllHas lengths (add_layer count k counts rows)
  AllHas-add_layer k counts [] rows h = tt
  AllHas-add_layer k counts (((req, layer), n) ∷ rest) rows (h, hs) =
      (Has-add_layer k req counts rows h, AllHas-add_layer k counts rest rows hs)

  AllHas-dict_set :
      (k : ℕ) (v : List ℕ) (lengths : Lengths) (rows : Rows)
      → AllHas lengths rows
      → AllHas lengths (dict_set k v rows)
  AllHas-dict_set k v [] rows h = tt
  AllHas-dict_set k v (((req, layer), n) ∷ rest) rows (h, hs) =
      (Has-dict_set k req v rows h, AllHas-dict_set k v rest rows hs)

  pub no_rows-AllHas : (lengths : Lengths) → AllHas lengths (no_rows count lengths)
  unfolding no_rows
  no_rows-AllHas [] = tt
  no_rows-AllHas (((req, layer), n) ∷ rest) =
      let zeros : List ℕ = replicate count 0 in
      (
        (zeros, ground (arith, dict_get-dict_set req req zeros (no_rows count rest))),
        AllHas-dict_set req zeros rest (no_rows count rest) (no_rows-AllHas rest),
      )

  pub no_rows-Counts : (lengths : Lengths) → Counts count (λ r d. 0) (no_rows count lengths)
  unfolding no_rows
  no_rows-Counts [] r xs e = absurd (none_eq xs (unfold dict_get in e))
  no_rows-Counts (((req, layer), n) ∷ rest) r xs e =
      let zeros : List ℕ = replicate count 0 in
      elim (ℕ_discrete req r) [
        | yes p ↦
            let same : zeros ≡ xs =
              some_eq zeros xs
                (ground (arith, p, e, dict_get-dict_set req r zeros (no_rows count rest))) in
            subst
              (λ (ys : List ℕ).
                (length ys ≡ count) × ((d : ℕ) → d < count → get_elem? ys d ≡ some 0))
              same (length-replicate {A = ℕ} count 0, get_elem?-replicate count)
        | no p ↦
            no_rows-Counts rest r xs
              (ground (arith, p, e, dict_get-dict_set req r zeros (no_rows count rest)))
      ]

  pub add_layers-Counts :
      (lengths : Lengths) (f : ℕ → ℕ → ℕ) (rows : Rows)
      → AllHas lengths rows
      → Counts count f rows
      → Counts count (λ r d. f r d + placed count lengths r d) (add_layers count lengths rows)
  unfolding add_layers
  add_layers-Counts [] f rows a h r xs e =
      let (long, each) = h r xs e in (long, λ d l. each d l ∙ ap some (omega arith))
  add_layers-Counts (((req, layer), n) ∷ rest) f rows (a, more) h r xs e =
      let counts = layer_counts count layer n in
      let (long, each) =
        add_layers-Counts rest (with_layer count req layer n f) (add_layer count req counts rows)
          (AllHas-add_layer req counts rest rows more) (add_layer-Counts req layer n f rows a h) r
          xs e in
      (long, λ d l. each d l ∙ ap some (omega arith))

  pub Has-add_layers :
      (lengths : Lengths) (req : ℕ) (rows : Rows)
      → Has req rows
      → Has req (add_layers count lengths rows)
  unfolding add_layers
  Has-add_layers [] req rows h = h
  Has-add_layers (((k, layer), n) ∷ rest) req rows h =
      Has-add_layers rest req (add_layer count k (layer_counts count layer n) rows)
        (Has-add_layer k req (layer_counts count layer n) rows h)
