-- ===== src/ConcurrentIo/Weights.antt =====
-- Sums over the items that a batch holds in its stages; a sum of ones counts the items.
use ummwith_client.Prelude.{
  ℕ, ◌+◌, ◌≡◌, ◌≤◌, refl, ap, List, [], ◌∷◌, ◌++◌, arith, ◌==◌, if◌then◌else◌, length, take, Result,
  ok, err, Error,
}
use ummwith_client.Prelude.Int.{pos_part}
use ummwith_client.Umm.{Bytes, UmmLib}
use ummwith_client.ConcurrentIo.Handle.{Outcome}
use ummwith_client.ConcurrentIo.Engine.{
  Item, Groups, into_group, desc_at, execute_one, report_read, report_write, run_items, Report,
}
use ummwith_client.ConcurrentIo.System.{pairs_of, all_refused, count_ok}

module _ (w : ℕ → ℕ) where
  abbrev pub weight : List Item → ℕ
  weight [] = 0
  weight (x ∷ xs) = w x.idx + weight xs

  abbrev pub group_weight : Groups → ℕ
  group_weight [] = 0
  group_weight ((k, items) ∷ rest) = weight items + group_weight rest

  abbrev pub queue_weight : List (List Item) → ℕ
  queue_weight [] = 0
  queue_weight (items ∷ rest) = weight items + queue_weight rest

  weight-append : (xs ys : List Item) → weight (xs ++ ys) ≡ weight xs + weight ys
  weight-append [] ys = omega arith
  weight-append (x ∷ xs) ys = omega (arith, weight-append xs ys)

  pub group_weight-into_group :
      (k : ℕ) (x : Item) (groups : Groups)
      → group_weight (into_group k x groups) ≡ w x.idx + group_weight groups
  unfolding into_group
  group_weight-into_group k x [] = omega arith
  group_weight-into_group k x ((j, items) ∷ rest) =
      ground (arith, weight-append items (x ∷ []), group_weight-into_group k x rest)

  pub queue_weight-append :
      (before after : List (List Item))
      → queue_weight (before ++ after) ≡ queue_weight before + queue_weight after
  queue_weight-append [] after = omega arith
  queue_weight-append (items ∷ rest) after = omega (arith, queue_weight-append rest after)

  -- The indices of pairs that are written to a handle.
  abbrev pub pair_weight : List (ℕ × Outcome) → ℕ
  pair_weight [] = 0
  pair_weight ((i, r) ∷ rest) = w i + pair_weight rest

  pub pair_weight-all_refused :
      (e : Error) (items : List Item) → pair_weight (all_refused e items) ≡ weight items
  pair_weight-all_refused e [] = refl
  pair_weight-all_refused e (x ∷ xs) = omega (arith, pair_weight-all_refused e xs)

abbrev pub one : ℕ → ℕ
one i = 1

abbrev pub at_index : ℕ → ℕ → ℕ
at_index i j = if j == i then 1 else 0

pub weight-one : (items : List Item) → weight one items ≡ length items
weight-one [] = refl
weight-one (x ∷ xs) = omega (arith, weight-one xs)

pub pair_weight-one : (pairs : List (ℕ × Outcome)) → pair_weight one pairs ≡ length pairs
pair_weight-one [] = refl
pair_weight-one ((i, r) ∷ rest) = omega (arith, pair_weight-one rest)

pub weight-at_index : (i : ℕ) (items : List Item) → weight (at_index i) items ≤ weight one items
weight-at_index i [] = omega arith
weight-at_index i (x ∷ xs) = ground (arith, weight-at_index i xs)

pub group_weight-at_index :
    (i : ℕ) (groups : Groups) → group_weight (at_index i) groups ≤ group_weight one groups
group_weight-at_index i [] = omega arith
group_weight-at_index i ((k, items) ∷ rest) =
    omega (arith, weight-at_index i items, group_weight-at_index i rest)

pub queue_weight-at_index :
    (i : ℕ) (queued : List (List Item)) → queue_weight (at_index i) queued ≤ queue_weight one queued
queue_weight-at_index i [] = omega arith
queue_weight-at_index i (items ∷ rest) =
    omega (arith, weight-at_index i items, queue_weight-at_index i rest)

length-pairs_of : (rs : List Report) → length (pairs_of rs) ≡ length rs
length-pairs_of [] = refl
length-pairs_of (r ∷ rs) = omega (arith, length-pairs_of rs)

pub count_ok-le : (rs : List Report) → count_ok rs ≤ length rs
unfolding count_ok
count_ok-le [] = omega arith
count_ok-le (r ∷ rs) = ground (arith, count_ok-le rs)

module _ (lib : UmmLib) where
  open lib use {Dev}

  report_read-idx :
      (i : ℕ) (buffer : Bytes) (n : ℕ) (r : Result Bytes × Dev)
      → (report_read lib i buffer n r).0.idx ≡ i
  report_read-idx i buffer n (err e, dev) = refl
  report_read-idx i buffer n (ok bytes, dev) = refl

  report_write-idx :
      (i : ℕ) (buffer : Bytes) (r : Result ℕ × Dev) → (report_write lib i buffer r).0.idx ≡ i
  report_write-idx i buffer (r, dev) = refl

  execute_one-idx : (x : Item) (dev : Dev) → (execute_one lib x dev).0.idx ≡ x.idx
  unfolding execute_one
  execute_one-idx x dev =
      let a = x.request.address in
      let n = pos_part a.nbytes in
      let at = pos_part a.offset in
      ground (
        arith,
        report_read-idx x.idx x.request.buffer n (lib.read_into (desc_at a) at n dev),
        report_write-idx x.idx x.request.buffer
            (lib.write_from (desc_at a) at (take n x.request.buffer) dev),
      )

  pub pair_weight-run_items :
      (w : ℕ → ℕ) (items : List Item) (dev : Dev)
      → pair_weight w (pairs_of (run_items lib items dev).0) ≡ weight w items
  unfolding run_items
  pair_weight-run_items w [] dev = refl
  pair_weight-run_items w (x ∷ xs) dev =
      rw (execute_one-idx x dev)
        (ap (λ (k : ℕ). w x.idx + k) (pair_weight-run_items w xs (execute_one lib x dev).1))

  pub length-run_items :
      (items : List Item) (dev : Dev) → length (run_items lib items dev).0 ≡ length items
  length-run_items items dev = omega (
    arith,
    length-pairs_of (run_items lib items dev).0,
    pair_weight-one (pairs_of (run_items lib items dev).0),
    pair_weight-run_items one items dev,
    weight-one items,
  )
