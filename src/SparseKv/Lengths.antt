-- ===== src/SparseKv/Lengths.antt =====
-- How many entries `plan` of bmpclient/sparse_kv/store.py has to write: one for each token.
use ummwith_client.Prelude.{
  ℕ, suc, ◌≡◌, refl, ap, Bool, true, false, Option, none, some, List, [], ◌∷◌, arith, length,
  get_elem?, Result, ok, err, ltb,
}
use ummwith_client.Prelude.Int.{ℤ, pos, negsuc, py_index}
use ummwith_client.Strategy as Strategy
use ummwith_client.SlotTable as Slots
use ummwith_client.SlotTable.{SlotTable}
use ummwith_client.SparseKv.Planning.{zip, keys_of}

pub length-zip : (es ds : List ℕ) → length es ≡ length ds → length (zip es ds) ≡ length es
length-zip [] ds h = refl
length-zip (e ∷ es) [] h = absurd (omega arith)
length-zip (e ∷ es) (d ∷ ds) h = ap suc (length-zip es ds (omega arith))

pub length-locate_batch :
    (s : Strategy.PositionHash) (keys : List (ℤ × ℤ))
    → length (Strategy.locate_batch s keys) ≡ length keys
unfolding Strategy.locate_batch
length-locate_batch s [] = refl
length-locate_batch s ((l, t) ∷ keys) = ap suc (length-locate_batch s keys)

pub length-map : (layer : ℤ) (tokens : List ℤ) → length (keys_of layer tokens) ≡ length tokens
length-map layer [] = refl
length-map layer (t ∷ ts) = ap suc (length-map layer ts)

length-gather_row :
    (row : List ℕ) (ts : List ℤ) (es : List ℕ)
    → Slots.gather_row row ts ≡ ok es
    → length es ≡ length ts
unfolding Slots.gather_row
length-gather_row row [] es h = ground arith
length-gather_row row (t ∷ ts) es h =
    by_parts (py_index row t) (Slots.gather_row row ts) refl refl
      (λ xs g. length-gather_row row ts xs g)
  where
    by_parts :
        (r : Result ℕ) (q : Result (List ℕ))
        → py_index row t ≡ r
        → Slots.gather_row row ts ≡ q
        → ((xs : List ℕ) → Slots.gather_row row ts ≡ ok xs → length xs ≡ length ts)
        → length es ≡ suc (length ts)
    by_parts (err e) q f g ih = absurd (ground arith)
    by_parts (ok x) (err e) f g ih = absurd (ground arith)
    by_parts (ok x) (ok xs) f g ih = ground (arith, ih xs g)

pub length-gather :
    (s : SlotTable) (layer : ℤ) (ts : List ℤ) (es : List ℕ)
    → Slots.gather s layer ts ≡ ok es
    → length es ≡ length ts
unfolding Slots.gather
length-gather s (negsuc l) ts es h = cc
length-gather s (pos l) ts es h = by_parts (ltb l s.num_layers) (get_elem? s.layers l) refl refl
  where
    by_parts :
        (b : Bool) (o : Option (List ℕ))
        → ltb l s.num_layers ≡ b
        → get_elem? s.layers l ≡ o
        → length es ≡ length ts
    by_parts false o f g = absurd (ground arith)
    by_parts true none f g = absurd (ground arith)
    by_parts true (some row) f g = length-gather_row row ts es (ground arith)
