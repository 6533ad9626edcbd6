-- ===== src/Bench/Bytes.antt =====
-- Whole segments that are enough for some rows: `round_up` and `add_slots` of the replay in
-- bmpclient/bench/layout_replay.py.
use native.Mathlib.Nat.{div-add-mod', mod-lt}
use ummwith_client.Prelude.{
  ℕ, ◌+◌, ◌-◌, ◌*◌, ◌/◌, ◌%◌, ◌≤◌, ◌<◌, ◌≡◌, refl, ap, sym, subst, ◌∙◌, max, inl, inr, ltb, ◌==◌,
  ◌&&◌, Bool-cases, some, Option-cases, List, [], ◌∷◌, if◌then◌else◌, arith,
}
use ummwith_client.Prelude.Dict.{dict_get, dict_set, dict_get-dict_set}
use ummwith_client.Bench.MultiDevice.{page, Lengths}
use ummwith_client.Bench.Trace.{base_of, insert_key, update_key, grow}
use ummwith_client.Bench.Geometry.{or_zero, round_up, add_slots}

-- The rows of all layers of a request.
abbrev pub total : ℕ → Lengths → ℕ
total req [] = 0
total req (((r, layer), n) ∷ rest) = (if r == req then n else 0) + total req rest

total-insert_key :
    (req r l n : ℕ) (lengths : Lengths)
    → total req (insert_key (r, l) n lengths) ≡ (if r == req then n else 0) + total req lengths
unfolding insert_key
total-insert_key req r l n [] = refl
total-insert_key req r l n (((r', l'), m) ∷ rest) = ground (arith, total-insert_key req r l n rest)

total-update_key :
    (req r l n m : ℕ) (lengths : Lengths)
    → base_of (r, l) lengths ≡ some m
    → total req (update_key (r, l) n lengths) + (if r == req then m else 0)
      ≡ (if r == req then n else 0) + total req lengths
unfolding update_key
total-update_key req r l n m [] h = absurd (cc h)
total-update_key req r l n m (((r', l'), o) ∷ rest) h =
    ground (arith, h, total-update_key req r l n m rest)

-- What a record adds to the rows of its request.
pub total-grow :
    (req r l n : ℕ) (lengths : Lengths)
    → total req (grow (r, l) n lengths)
      ≡ total req lengths + (if r == req then n - or_zero (base_of (r, l) lengths) else 0)
unfolding grow
total-grow req r l n lengths = elim (Option-cases (base_of (r, l) lengths)) [
  | inl e ↦ rw (e, grow) (ground (arith, total-insert_key req r l n lengths))
  | inr (m, e) ↦ rw (e, grow) (ground (arith, total-update_key req r l (max m n) m lengths e))
]

abbrev pub IsMultiple : ℕ → ℕ → Type 0
IsMultiple segment n = (k : ℕ) × (n ≡ k * segment)

pub round_up_lem :
    (segment n : ℕ)
    → 0 < segment
    → (n ≤ round_up segment n)
      × (round_up segment n < n + segment)
      × IsMultiple segment (round_up segment n)
unfolding round_up
round_up_lem segment n h =
    let x : ℕ = n + segment - 1 in
    let whole : x / segment * segment + x % segment ≡ x = div-add-mod' x segment in
    let small : x % segment < segment = mod-lt x h in
    (omega (arith, whole, small), omega (arith, whole, small, h), (x / segment, refl))

sum-IsMultiple :
    (segment a b : ℕ) → IsMultiple segment a → IsMultiple segment b → IsMultiple segment (a + b)
sum-IsMultiple segment a b (j, h) (k, h') = (j + k, grind (arith, h, h'))

-- The bytes are whole segments, and enough for the rows.
abbrev pub Room : ℕ → ℕ → ℕ → Type 0
Room segment rows bytes = (rows * page ≤ bytes) × IsMultiple segment bytes

more-Room :
    (segment rows old new bytes : ℕ)
    → 0 < segment
    → old < new
    → Room segment rows bytes
    → Room segment (rows + (new - old)) (bytes + round_up segment ((new - old) * page))
more-Room segment rows old new bytes h grows (enough, whole) =
    let (above, below, multiple) = round_up_lem segment ((new - old) * page) h in
    (
      omega (arith, above, enough),
      sum-IsMultiple segment bytes (round_up segment ((new - old) * page)) whole multiple,
    )

or_zero-add_slots :
    (segment req r old new : ℕ) (slots : List (ℕ × ℕ))
    → or_zero (dict_get req (add_slots segment r old new slots))
      ≡ or_zero (dict_get req slots)
        + (if ltb old new && (r == req) then round_up segment ((new - old) * page) else 0)
unfolding add_slots
or_zero-add_slots segment req r old new slots =
    let bytes : ℕ = or_zero (dict_get r slots) + round_up segment ((new - old) * page) in
    elim (Bool-cases (ltb old new)) [
      | inl e ↦ elim (Bool-cases (r == req)) [
        | inl q ↦
            let same : r ≡ req = ground (arith, q) in
            let stored : dict_get req (dict_set r bytes slots) ≡ some bytes =
              ground (arith, q, dict_get-dict_set r req bytes slots) in
            rw (e, q, add_slots)
              (ap or_zero stored
                ∙ ap (λ (x : ℕ). or_zero (dict_get x slots) + round_up segment ((new - old) * page))
                    same)
        | inr q ↦
            let stored : dict_get req (dict_set r bytes slots) ≡ dict_get req slots =
              ground (arith, q, dict_get-dict_set r req bytes slots) in
            rw (e, q, add_slots) (ap or_zero stored ∙ omega arith)
      ]
      | inr e ↦ rw (e, add_slots) (omega arith)
    ]

pub same-Room :
    (segment rows rows' bytes bytes' : ℕ)
    → rows ≡ rows'
    → bytes ≡ bytes'
    → Room segment rows bytes
    → Room segment rows' bytes'
same-Room segment rows rows' bytes bytes' e e' h =
    subst (λ (n : ℕ). Room segment n bytes') e (subst (Room segment rows) e' h)

pub add_slots-Room :
    (segment req r old new rows : ℕ) (slots : List (ℕ × ℕ))
    → 0 < segment
    → Room segment rows (or_zero (dict_get req slots))
    → Room segment
        (rows + (if r == req then new - old else 0))
        (or_zero (dict_get req (add_slots segment r old new slots)))
add_slots-Room segment req r old new rows slots h room =
    let bytes = or_zero-add_slots segment req r old new slots in
    let before : ℕ = or_zero (dict_get req slots) in
    elim (Bool-cases (ltb old new && (r == req))) [
      | inl e ↦
          let grows : old < new = ground (arith, e) in
          same-Room segment (rows + (new - old)) _ (before + round_up segment ((new - old) * page))
            _ (ground (arith, e)) (sym (ground (arith, e, bytes)))
            (more-Room segment rows old new before h grows room)
      | inr e ↦
          same-Room segment rows _ before _ (ground (arith, e)) (sym (ground (arith, e, bytes)))
            room
    ]
