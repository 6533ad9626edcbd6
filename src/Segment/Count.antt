-- ===== src/Segment/Count.antt =====
-- How often a number stands in a list, and how many units of a list lie in a segment.
use ummwith_client.Prelude.{
  ℕ, zero, suc, ◌+◌, ◌-◌, ◌/◌, ◌≤◌, ◌<◌, ◌≡◌, List, [], ◌∷◌, arith, ltb, leb, ◌==◌, if◌then◌else◌,
  ◌&&◌,
}
use ummwith_client.Segment.Manager.{count_up}

unfoldable pub occ : ℕ → List ℕ → ℕ
occ a [] = 0
occ a (x ∷ xs) = (if x == a then 1 else 0) + occ a xs

-- The units of `live` in segment `seg`.
unfoldable pub units_in : ℕ → ℕ → List ℕ → ℕ
units_in sp seg [] = 0
units_in sp seg (x ∷ xs) = (if x / sp == seg then 1 else 0) + units_in sp seg xs

-- The list without its first `a`.
unfoldable pub without : ℕ → List ℕ → List ℕ
without a [] = []
without a (x ∷ xs) = if x == a then xs else x ∷ without a xs

pub occ-le-units_in : (sp seg a : ℕ) (xs : List ℕ) → a / sp ≡ seg → occ a xs ≤ units_in sp seg xs
unfolding occ units_in
occ-le-units_in sp seg a [] e = omega arith
occ-le-units_in sp seg a (x ∷ xs) e = ground (arith, occ-le-units_in sp seg a xs e)

pub occ-without :
    (a b : ℕ) (xs : List ℕ) → occ b (without a xs) ≡ occ b xs - (if a == b then 1 else 0)
unfolding occ without
occ-without a b [] = ground arith
occ-without a b (x ∷ xs) = ground (arith, occ-without a b xs)

pub units_in-without :
    (sp seg a : ℕ) (xs : List ℕ)
    → 0 < occ a xs
    → units_in sp seg (without a xs) + (if a / sp == seg then 1 else 0) ≡ units_in sp seg xs
unfolding occ units_in without
units_in-without sp seg a [] h = absurd (omega arith)
units_in-without sp seg a (x ∷ xs) h = ground (arith, units_in-without sp seg a xs)

pub occ-count_up :
    (a from n : ℕ) → occ a (count_up from n) ≡ (if leb from a && ltb a (from + n) then 1 else 0)
unfolding occ
occ-count_up a from zero = ground arith
occ-count_up a from (suc n) = ground (arith, occ-count_up a (suc from) n)
