-- ===== src/VirtualMedia/Spans.antt =====
-- The units of a run in `read_batch` of bmpclient/virtual_media.py: where they lie, and what is copied of them.
use ummwith_client.Prelude.{
  ℕ, zero, suc, ◌+◌, ◌*◌, ◌≤◌, ◌<◌, ◌≡◌, refl, ap, List, [], ◌∷◌, ◌++◌, length, All, arith, leb,
  Bool-cases, inl, inr,
}
use ummwith_client.Prelude.Splice.{slice}
use ummwith_client.Umm.{Bytes}
use ummwith_client.VirtualMedia.Runs.{Item, IsRun}
use ummwith_client.VirtualMedia.Staging.{read_each}
use ummwith_client.VirtualMedia.Media.{insert_item, sort_items, copy_out, run_start, run_last}

-- The unit of an item lies below `limit`.
abbrev pub Inside : ℕ → ℕ → Item → Type 0
Inside unit limit x = x.1 + unit ≤ limit

insert_item-Inside :
    (unit limit : ℕ) (x : Item) (items : List Item)
    → Inside unit limit x
    → All (Inside unit limit) items
    → All (Inside unit limit) (insert_item x items)
unfolding insert_item
insert_item-Inside unit limit x [] h hs = (h, tt)
insert_item-Inside unit limit x (y ∷ ys) h (g, hs) = elim (Bool-cases (leb x.1 y.1)) [
  | inl e ↦ rw e (h, (g, hs))
  | inr e ↦ rw e (g, insert_item-Inside unit limit x ys h hs)
]

pub sort_items-Inside :
    (unit limit : ℕ) (items : List Item)
    → All (Inside unit limit) items
    → All (Inside unit limit) (sort_items items)
unfolding sort_items
sort_items-Inside unit limit [] hs = tt
sort_items-Inside unit limit (x ∷ xs) (h, hs) =
    insert_item-Inside unit limit x (sort_items xs) h (sort_items-Inside unit limit xs hs)

pub append-Inside :
    (unit limit : ℕ) (run items : List Item)
    → All (Inside unit limit) (run ++ items)
    → All (Inside unit limit) run × All (Inside unit limit) items
append-Inside unit limit [] items hs = (tt, hs)
append-Inside unit limit (x ∷ run) items (h, hs) =
    let (here, rest) = append-Inside unit limit run items hs in ((h, here), rest)

pub run_start-IsRun :
    (unit start : ℕ) (run : List Item)
    → 0 < length run
    → IsRun unit start run
    → run_start run ≡ start
run_start-IsRun unit start [] p r = absurd (omega arith)
run_start-IsRun unit start (x ∷ run) p r = r.0

pub run_last-IsRun :
    (unit start : ℕ) (run : List Item)
    → 0 < length run
    → IsRun unit start run
    → run_last run + unit ≡ start + length run * unit
run_last-IsRun unit start [] p r = absurd (omega arith)
run_last-IsRun unit start (x ∷ []) p r = omega (arith, r.0)
run_last-IsRun unit start (x ∷ y ∷ run) p r =
    omega (arith, run_last-IsRun unit (start + unit) (y ∷ run) (omega arith) r.1)

pub product-positive : (a b : ℕ) → 0 < a → 0 < b → 0 < a * b
product-positive zero b p q = absurd (omega arith)
product-positive (suc a) b p q = omega arith

-- A run whose units lie below `limit` ends there.
pub run-bound :
    (unit limit start : ℕ) (run : List Item)
    → 0 < length run
    → IsRun unit start run
    → All (Inside unit limit) run
    → start + length run * unit ≤ limit
run-bound unit limit start [] p r h = absurd (omega arith)
run-bound unit limit start (x ∷ []) p r h = omega (arith, r.0, h.0)
run-bound unit limit start (x ∷ y ∷ run) p r h =
    omega (arith, run-bound unit limit (start + unit) (y ∷ run) (omega arith) r.1 h.1)

pub copy_out-append :
    (ps qs : List (ℕ × Bytes)) (outs : List Bytes)
    → copy_out (ps ++ qs) outs ≡ copy_out qs (copy_out ps outs)
unfolding copy_out
copy_out-append [] qs outs = refl
copy_out-append ((pos, unit) ∷ ps) qs outs = copy_out-append ps qs _

pub append_pairs : (ps qs rs : List (ℕ × Bytes)) → (ps ++ qs) ++ rs ≡ ps ++ (qs ++ rs)
append_pairs [] qs rs = refl
append_pairs (p ∷ ps) qs rs = ap (λ l. p ∷ l) (append_pairs ps qs rs)

pub read_each-append :
    (unit : ℕ) (stored : Bytes) (run items : List Item)
    → read_each unit stored (run ++ items)
      ≡ read_each unit stored run ++ read_each unit stored items
unfolding read_each
read_each-append unit stored [] items = refl
read_each-append unit stored ((pos, off) ∷ run) items =
    ap (λ l. (pos, slice stored off unit) ∷ l) (read_each-append unit stored run items)
