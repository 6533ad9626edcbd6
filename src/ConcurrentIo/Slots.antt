-- ===== src/ConcurrentIo/Slots.antt =====
-- The results of a handle that are still open, one by one.
use ummwith_client.Prelude.{
  ℕ, zero, suc, ◌+◌, ◌≡◌, ◌<◌, ◌≤◌, refl, Bool, List, [], ◌∷◌, arith, ltb, ◌==◌, if◌then◌else◌,
  length, length-set, get_elem?, set, Option, none, some, replicate,
}
use ummwith_client.ConcurrentIo.Handle.{IoRequest, Outcome, put_results}
use ummwith_client.ConcurrentIo.Engine.{enumerate}
use ummwith_client.ConcurrentIo.Weights.{weight, pair_weight, at_index}

-- 1 where the handle has no result yet.
abbrev pub open_at : List (Option Outcome) → ℕ → ℕ
open_at [] i = 0
open_at (none ∷ rest) zero = 1
open_at (some r ∷ rest) zero = 0
open_at (r ∷ rest) (suc i) = open_at rest i

open_at-set :
    (results : List (Option Outcome)) (j i : ℕ) (r : Outcome)
    → open_at (set results j (some r)) i ≡ (if j == i then 0 else open_at results i)
open_at-set [] j i r = ground arith
open_at-set (o ∷ rest) zero zero r = refl
open_at-set (none ∷ rest) zero (suc i) r = ground arith
open_at-set (some v ∷ rest) zero (suc i) r = ground arith
open_at-set (none ∷ rest) (suc j) zero r = ground arith
open_at-set (some v ∷ rest) (suc j) zero r = ground arith
open_at-set (none ∷ rest) (suc j) (suc i) r = ground (arith, open_at-set rest j i r)
open_at-set (some v ∷ rest) (suc j) (suc i) r = ground (arith, open_at-set rest j i r)

pub open_at-put_results :
    (pairs : List (ℕ × Outcome)) (results : List (Option Outcome)) (i : ℕ)
    → open_at (put_results pairs results) i
      ≡ (if ltb 0 (pair_weight (at_index i) pairs) then 0 else open_at results i)
unfolding put_results
open_at-put_results [] results i = ground arith
open_at-put_results ((j, r) ∷ pairs) results i =
    ground (arith, open_at-put_results pairs (set results j (some r)) i, open_at-set results j i r)

pub open_at-le : (results : List (Option Outcome)) (i : ℕ) → open_at results i ≤ 1
open_at-le [] i = omega arith
open_at-le (none ∷ rest) zero = omega arith
open_at-le (some r ∷ rest) zero = omega arith
open_at-le (none ∷ rest) (suc i) = open_at-le rest i
open_at-le (some r ∷ rest) (suc i) = open_at-le rest i

open_at-replicate : (n i : ℕ) → open_at (replicate n none) i ≡ (if ltb i n then 1 else 0)
open_at-replicate zero i = ground arith
open_at-replicate (suc n) zero = ground arith
open_at-replicate (suc n) (suc i) = ground (arith, open_at-replicate n i)

weight-enumerate :
    (items : List (IoRequest × Bool)) (k i : ℕ)
    → weight (at_index i) (enumerate k items)
      ≡ (if ltb i k then 0 else if ltb i (k + length items) then 1 else 0)
unfolding enumerate
weight-enumerate [] k i = ground arith
weight-enumerate ((r, b) ∷ rest) k i = ground (arith, weight-enumerate rest (suc k) i)

-- At the start each result is open, and its request is in the batch once.
pub open_at-start :
    (items : List (IoRequest × Bool)) (i : ℕ)
    → open_at (replicate (length items) none) i ≡ weight (at_index i) (enumerate 0 items)
open_at-start items i =
    ground (arith, open_at-replicate (length items) i, weight-enumerate items 0 i)

pub length-enumerate :
    (k : ℕ) (items : List (IoRequest × Bool)) → length (enumerate k items) ≡ length items
unfolding enumerate
length-enumerate k [] = refl
length-enumerate k ((r, b) ∷ rest) = omega (arith, length-enumerate (suc k) rest)

pub length-put_results :
    (pairs : List (ℕ × Outcome)) (results : List (Option Outcome))
    → length (put_results pairs results) ≡ length results
unfolding put_results
length-put_results [] results = refl
length-put_results ((i, r) ∷ pairs) results =
    omega (arith, length-put_results pairs (set results i (some r)), length-set results i (some r))

-- A slot that is not open has its result.
pub recorded :
    (results : List (Option Outcome)) (i : ℕ)
    → i < length results
    → open_at results i ≡ 0
    → (r : Outcome) × (get_elem? results i ≡ some (some r))
recorded [] i h e = elim h [ ]
recorded (none ∷ rest) zero h e = absurd (omega (arith, e))
recorded (some r ∷ rest) zero h e = (r, refl)
recorded (none ∷ rest) (suc i) h e = recorded rest i (omega arith) e
recorded (some r ∷ rest) (suc i) h e = recorded rest i (omega arith) e
