-- ===== src/Prelude/Splice.antt =====
-- `buf[start:start + len(data)] = data` on a buffer of a fixed size, and what is read afterwards.
use Prim.Native.Nat.{ℕ, zero, suc, ◌+◌, ◌-◌, ◌≤◌}
use mathlib.Core.Path.{◌≡◌, refl, ap, sym, ◌∙◌}
use mathlib.Core.List.{List, [], ◌∷◌, ◌++◌}
use native.Mathlib.Omega.{arith}
use ummwith_client.Prelude.Lists.{length, take, drop, length-append, length-take, length-drop}

module _ {ℓ} {A : Type ℓ} where
  abbrev pub splice : List A → ℕ → List A → List A
  splice buf start unit = take start buf ++ (unit ++ drop (start + length unit) buf)

  -- `buf[at:at + size]`
  abbrev pub slice : List A → ℕ → ℕ → List A
  slice buf at size = take size (drop at buf)

  drop-nil : (k : ℕ) → drop {A = A} k [] ≡ []
  drop-nil zero = refl
  drop-nil (suc k) = refl

  drop_congr : (j k : ℕ) (xs : List A) → j ≡ k → drop j xs ≡ drop k xs
  drop_congr j k xs e = ap (λ (n : ℕ). drop n xs) e

  drop-drop : (a b : ℕ) (xs : List A) → drop a (drop b xs) ≡ drop (b + a) xs
  drop-drop a zero xs = drop_congr a (0 + a) xs (omega arith)
  drop-drop a (suc b) [] = drop-nil a ∙ sym (drop-nil (suc b + a))
  drop-drop a (suc b) (x ∷ xs) =
      drop-drop a b xs ∙ drop_congr (suc (b + a)) (suc b + a) (x ∷ xs) (omega arith)

  drop-append : (a : ℕ) (u r : List A) → length u ≤ a → drop a (u ++ r) ≡ drop (a - length u) r
  drop-append a [] r h = drop_congr a (a - 0) r (omega arith)
  drop-append zero (x ∷ u) r h = absurd (omega arith)
  drop-append (suc a) (x ∷ u) r h =
      drop-append a u r (omega arith)
      ∙ drop_congr (a - length u) (suc a - suc (length u)) r (omega arith)

  take-append_self : (u r : List A) → take (length u) (u ++ r) ≡ u
  take-append_self [] r = refl
  take-append_self (x ∷ u) r = ap (◌∷◌ x) (take-append_self u r)

  slice-take_append :
      (at size start : ℕ) (xs r : List A)
      → at + size ≤ start
      → start ≤ length xs
      → slice (take start xs ++ r) at size ≡ slice xs at size
  slice-take_append zero zero start xs r p q = refl
  slice-take_append zero (suc size) zero xs r p q = absurd (omega arith)
  slice-take_append zero (suc size) (suc start) [] r p q = absurd (omega arith)
  slice-take_append zero (suc size) (suc start) (x ∷ xs) r p q =
      ap (◌∷◌ x) (slice-take_append zero size start xs r (omega arith) (omega arith))
  slice-take_append (suc at) size zero xs r p q = absurd (omega arith)
  slice-take_append (suc at) size (suc start) [] r p q = absurd (omega arith)
  slice-take_append (suc at) size (suc start) (x ∷ xs) r p q =
      slice-take_append at size start xs r (omega arith) (omega arith)

  pub length-splice :
      (buf : List A) (start : ℕ) (unit : List A)
      → start + length unit ≤ length buf
      → length (splice buf start unit) ≡ length buf
  length-splice buf start unit h = omega (
    arith,
    length-append (take start buf) (unit ++ drop (start + length unit) buf),
    length-append unit (drop (start + length unit) buf),
    length-take start buf,
    length-drop (start + length unit) buf,
  )

  -- The written range reads as what was written.
  pub slice-splice_self :
      (buf : List A) (start : ℕ) (unit : List A)
      → start + length unit ≤ length buf
      → slice (splice buf start unit) start (length unit) ≡ unit
  slice-splice_self buf start unit h =
      let rest : List A = drop (start + length unit) buf in
      let taken : length (take start buf) ≡ start = omega (arith, length-take start buf) in
      ap (take (length unit)) (
        drop-append start (take start buf) (unit ++ rest) (omega arith)
        ∙ drop_congr (start - length (take start buf)) 0 (unit ++ rest) (omega arith))
      ∙ take-append_self unit rest

  -- A range that ends before the write, or starts after it, reads as before.
  pub slice-splice_before :
      (buf : List A) (start : ℕ) (unit : List A) (at size : ℕ)
      → start + length unit ≤ length buf
      → at + size ≤ start
      → slice (splice buf start unit) at size ≡ slice buf at size
  slice-splice_before buf start unit at size h p =
      slice-take_append at size start buf (unit ++ drop (start + length unit) buf) p (omega arith)

  pub slice-splice_after :
      (buf : List A) (start : ℕ) (unit : List A) (at size : ℕ)
      → start + length unit ≤ length buf
      → start + length unit ≤ at
      → slice (splice buf start unit) at size ≡ slice buf at size
  slice-splice_after buf start unit at size h p =
      let rest : List A = drop (start + length unit) buf in
      let taken : length (take start buf) ≡ start = omega (arith, length-take start buf) in
      ap (take size) (
        drop-append at (take start buf) (unit ++ rest) (omega arith)
        ∙ drop-append (at - length (take start buf)) unit rest (omega arith)
        ∙ drop-drop (at - length (take start buf) - length unit) (start + length unit) buf
        ∙ drop_congr (start + length unit + (at - length (take start buf) - length unit)) at buf
            (omega arith))

  take-take : (a b : ℕ) (xs : List A) → a ≤ b → take a (take b xs) ≡ take a xs
  take-take zero b xs h = refl
  take-take (suc a) zero xs h = absurd (omega arith)
  take-take (suc a) (suc b) [] h = refl
  take-take (suc a) (suc b) (x ∷ xs) h = ap (◌∷◌ x) (take-take a b xs (omega arith))

  slice-take : (k u n : ℕ) (xs : List A) → k + u ≤ n → slice (take n xs) k u ≡ slice xs k u
  slice-take zero u n xs h = take-take u n xs (omega arith)
  slice-take (suc k) zero n xs h = refl
  slice-take (suc k) (suc u) zero xs h = absurd (omega arith)
  slice-take (suc k) (suc u) (suc n) [] h = refl
  slice-take (suc k) (suc u) (suc n) (x ∷ xs) h = slice-take k (suc u) n xs (omega arith)

  -- A slice of a slice.
  pub slice-slice :
      (xs : List A) (start n k u : ℕ)
      → k + u ≤ n
      → slice (slice xs start n) k u ≡ slice xs (start + k) u
  slice-slice xs start n k u h =
      slice-take k u n (drop start xs) h ∙ ap (take u) (drop-drop k start xs)
