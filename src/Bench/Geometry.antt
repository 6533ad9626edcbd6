-- ===== src/Bench/Geometry.antt =====
-- `geometry` of bmpclient/bench/layout_replay.py: the longest context of each request and layer, and the
-- bytes that each request takes when its rows are written by whole segments. `segment` is positive.
use ummwith_client.Prelude.{
  ℕ, ◌+◌, ◌-◌, ◌*◌, ◌/◌, ltb, ◌&&◌, Bool, true, false, Option, none, some, List, [], ◌∷◌,
  if◌then◌else◌, Result, ok, value_error, raise_if, ◌>>=◌, ◌>>◌,
}
use ummwith_client.Prelude.Dict.{dict_get, dict_set}
use ummwith_client.Bench.MultiDevice.{page, Lengths}
use ummwith_client.Bench.Trace.{Record, key_of, base_of, grow}

pub data Mode : Type 0 where
  online snapshot : Mode

-- The dicts; `steps` is the last step of a request.
pub record Books : Type 0 where
  pub lengths : Lengths
  pub slots : List (ℕ × ℕ)
  pub steps : List (ℕ × ℕ)

-- `.get(key, 0)`
abbrev pub or_zero : Option ℕ → ℕ
or_zero none = 0
or_zero (some n) = n

abbrev pub is_online : Mode → Bool
is_online online = true
is_online snapshot = false

-- `((n + segment - 1) // segment) * segment`
unfoldable pub round_up : ℕ → ℕ → ℕ
round_up segment n = (n + segment - 1) / segment * segment

-- `if new > old: slots[request] = ...`
unfoldable pub add_slots : ℕ → ℕ → ℕ → ℕ → List (ℕ × ℕ) → List (ℕ × ℕ)
unfolding round_up
add_slots segment request old new slots =
    if ltb old new
    then dict_set request (or_zero (dict_get request slots) + round_up segment ((new - old) * page))
        slots
    else slots

-- The body of the loop over the records.
unfoldable pub enter : ℕ → Mode → Record → Books → Result Books
unfolding add_slots
enter segment mode r b = do
  raise_if (is_online mode && ltb r.step_id (or_zero (dict_get r.request_id b.steps))) value_error
  let old = or_zero (base_of (key_of r) b.lengths)
  raise_if (is_online mode && ltb r.context_length old) value_error
  ok (record {
    lengths = grow (key_of r) r.context_length b.lengths;
    slots = add_slots segment r.request_id old r.context_length b.slots;
    steps = dict_set r.request_id r.step_id b.steps;
  })

unfoldable pub enter_all : ℕ → Mode → List Record → Books → Result Books
unfolding enter
enter_all segment mode [] b = ok b
enter_all segment mode (r ∷ rs) b = do b' ← enter segment mode r b; enter_all segment mode rs b'

-- `slots[request] = slots.get(request, 0) + count * PAGE` for each length.
unfoldable pub sum_slots : Lengths → List (ℕ × ℕ) → List (ℕ × ℕ)
sum_slots [] slots = slots
sum_slots (((request, layer), n) ∷ rest) slots =
    sum_slots rest (dict_set request (or_zero (dict_get request slots) + n * page) slots)

unfoldable pub round_slots : ℕ → List (ℕ × ℕ) → List (ℕ × ℕ)
unfolding round_up
round_slots segment [] = []
round_slots segment ((request, value) ∷ rest) =
    (request, round_up segment value) ∷ round_slots segment rest

-- The slots in the end: those of the loop, or in snapshot mode those of the lengths.
unfoldable pub final_slots : ℕ → Mode → Books → List (ℕ × ℕ)
unfolding sum_slots round_slots
final_slots segment online b = b.slots
final_slots segment snapshot b = round_slots segment (sum_slots b.lengths [])

abbrev pub no_books : Books
no_books = record { lengths = []; slots = []; steps = [] }

unfoldable pub geometry : ℕ → Mode → List Record → Result (Lengths × List (ℕ × ℕ))
unfolding enter_all final_slots
geometry segment mode records = do
  b ← enter_all segment mode records no_books
  ok (b.lengths, final_slots segment mode b)
