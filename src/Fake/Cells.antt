-- ===== src/Fake/Cells.antt =====
-- Buffers of the fake library against the cells of a memory.
use ummwith_client.Prelude.{
  ℕ, zero, suc, ◌+◌, ◌-◌, ◌≤◌, ◌<◌, ◌≡◌, refl, ap, ◌∙◌, ltb, leb, ◌&&◌, none, some, [], ◌∷◌, ◌++◌,
  if◌then◌else◌, length, take, drop, replicate, get_elem?, arith, length-take, dec_lt,
}
use ummwith_client.Prelude.Splice.{splice, slice, length-splice}
use ummwith_client.Umm.{Bytes}
use ummwith_client.Fake.Memory.{cells, byte_at}

-- The buffer has the cells as its bytes.
abbrev pub Holds : Bytes → (ℕ → ℕ) → Type 0
Holds buf f = (i : ℕ) → i < length buf → get_elem? buf i ≡ some (f i)

get_elem?-byte_at : (buf : Bytes) (i : ℕ) → i < length buf → get_elem? buf i ≡ some (byte_at buf i)
get_elem?-byte_at [] i h = absurd (omega (arith, h))
get_elem?-byte_at (b ∷ buf) zero h = refl
get_elem?-byte_at (b ∷ buf) (suc i) h = get_elem?-byte_at buf i (omega arith)

get_elem?-append :
    (xs ys : Bytes) (i : ℕ)
    → get_elem? (xs ++ ys) i
      ≡ (if ltb i (length xs) then get_elem? xs i else get_elem? ys (i - length xs))
get_elem?-append [] ys i = ground arith
get_elem?-append (x ∷ xs) ys zero = ground arith
get_elem?-append (x ∷ xs) ys (suc i) = ground (arith, get_elem?-append xs ys i)

get_elem?-take :
    (n : ℕ) (xs : Bytes) (i : ℕ)
    → get_elem? (take n xs) i ≡ (if ltb i n then get_elem? xs i else none)
get_elem?-take zero xs i = ground arith
get_elem?-take (suc n) [] i = ground arith
get_elem?-take (suc n) (x ∷ xs) zero = ground arith
get_elem?-take (suc n) (x ∷ xs) (suc i) = ground (arith, get_elem?-take n xs i)

get_elem?-drop : (n : ℕ) (xs : Bytes) (i : ℕ) → get_elem? (drop n xs) i ≡ get_elem? xs (n + i)
get_elem?-drop zero xs i = ground arith
get_elem?-drop (suc n) [] i = refl
get_elem?-drop (suc n) (x ∷ xs) i = ground (arith, get_elem?-drop n xs i)

get_elem?-splice :
    (buf : Bytes) (at : ℕ) (payload : Bytes) (i : ℕ)
    → at + length payload ≤ length buf
    → get_elem? (splice buf at payload) i ≡ (
        if leb at i && ltb i (at + length payload)
        then get_elem? payload (i - at)
        else get_elem? buf i)
get_elem?-splice buf at payload i h =
    let tail : Bytes = drop (at + length payload) buf in
    let short : length (take at buf) ≡ at = omega (arith, length-take at buf, h) in
    let first = get_elem?-append (take at buf) (payload ++ tail) i in
    let second = get_elem?-append payload tail (i - at) in
    let third = get_elem?-drop (at + length payload) buf (i - at - length payload) in
    elim (dec_lt i at) [
      | yes p ↦ ground (arith, first, get_elem?-take at buf i)
      | no p ↦ elim (dec_lt i (at + length payload)) [
        | yes q ↦ ground (arith, first, second)
        | no q ↦
            let back : at + length payload + (i - at - length payload) ≡ i = omega arith in
            ground (arith, first, second, third, ap (get_elem? buf) back)
      ]
    ]

pub Holds-splice :
    (buf : Bytes) (at : ℕ) (payload : Bytes) (f : ℕ → ℕ)
    → at + length payload ≤ length buf
    → Holds buf f
    → Holds
        (splice buf at payload)
        (λ i. if leb at i && ltb i (at + length payload) then byte_at payload (i - at) else f i)
Holds-splice buf at payload f h held i l =
    let cell = get_elem?-splice buf at payload i h in
    let inside : i < length buf = omega (arith, l, length-splice buf at payload h) in
    let old = held i inside in
    elim (dec_lt i at) [
      | yes p ↦ ground (arith, cell, old)
      | no p ↦ elim (dec_lt i (at + length payload)) [
        | yes q ↦ ground (arith, cell, get_elem?-byte_at payload (i - at) (omega arith))
        | no q ↦ ground (arith, cell, old)
      ]
    ]

take-cells :
    (xs : Bytes) (f : ℕ → ℕ) (at n : ℕ)
    → ((i : ℕ) → i < n → get_elem? xs i ≡ some (f (at + i)))
    → take n xs ≡ cells f at n
take-cells xs f at zero h = refl
take-cells [] f at (suc n) h = cc (h 0 (omega arith))
take-cells (x ∷ xs) f at (suc n) h = ground (
  arith,
  h 0 (omega arith),
  ap f (right_zero at),
  take-cells xs f (suc at) n
      (λ i p. h (suc i) (omega (arith, p)) ∙ ap (λ (k : ℕ). some (f k)) (omega arith)),
)
  where
    right_zero : (at : ℕ) → at + 0 ≡ at
    right_zero at = omega arith

pub slice-cells :
    (buf : Bytes) (f : ℕ → ℕ) (at n : ℕ)
    → Holds buf f
    → at + n ≤ length buf
    → slice buf at n ≡ cells f at n
slice-cells buf f at n held h =
    take-cells (drop at buf) f at n
      (λ i p. get_elem?-drop at buf i ∙ held (at + i) (omega (arith, p, h)))

pub Holds-replicate : (n : ℕ) → Holds (replicate n 0) (λ i. 0)
Holds-replicate zero i h = absurd (omega (arith, h))
Holds-replicate (suc n) zero h = refl
Holds-replicate (suc n) (suc i) h = Holds-replicate n i (omega arith)
