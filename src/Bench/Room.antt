-- ===== src/Bench/Room.antt =====
-- The bytes that a replay reserves for a request, against the rows of its layers.
use ummwith_client.Prelude.{
  ℕ, ◌+◌, ◌*◌, ◌<◌, ◌≡◌, refl, ap, sym, subst, ◌∙◌, inl, inr, ltb, ◌==◌, ◌&&◌, Bool-cases, some,
  List, [], ◌∷◌, All, arith, value_error,
}
use ummwith_client.Prelude.Dict.{dict_get, dict_set, dict_get-dict_set}
use ummwith_client.Prelude.Ensures.{Ensures, bind-Ensures, unless_raised, weaken, both}
use ummwith_client.Bench.MultiDevice.{page, Lengths}
use ummwith_client.Bench.Bases.{AtLeast, lengths_of-All}
use ummwith_client.Bench.Trace.{Record, lengths_of, key_of, base_of, grow}
use ummwith_client.Bench.Geometry.{
  Mode, online, snapshot, Books, or_zero, is_online, enter, enter_all, sum_slots, round_slots,
  final_slots, no_books, geometry,
}
use ummwith_client.Bench.Bytes.{total, total-grow, round_up_lem, Room, same-Room, add_slots-Room}

abbrev BooksRoom : ℕ → Books → Type 0
BooksRoom segment b =
    (req : ℕ) → Room segment (total req b.lengths) (or_zero (dict_get req b.slots))

enter-Room :
    (segment : ℕ) (mode : Mode) (r : Record) (b : Books)
    → 0 < segment
    → BooksRoom segment b
    → Ensures (BooksRoom segment) (enter segment mode r b)
unfolding enter
enter-Room segment mode r b h room =
    unless_raised _ (is_online mode && ltb r.step_id (or_zero (dict_get r.request_id b.steps)))
      value_error _
      (λ _.
        unless_raised _
          (is_online mode && ltb r.context_length (or_zero (base_of (key_of r) b.lengths)))
          value_error _
          (λ _ req.
            same-Room segment _ _ _ _
              (sym (total-grow req r.request_id r.layer_id r.context_length b.lengths)) refl
              (add_slots-Room segment req r.request_id (or_zero (base_of (key_of r) b.lengths))
                r.context_length (total req b.lengths) b.slots h (room req))))

enter_all-Room :
    (segment : ℕ) (mode : Mode) (rs : List Record) (b : Books)
    → 0 < segment
    → BooksRoom segment b
    → Ensures (BooksRoom segment) (enter_all segment mode rs b)
unfolding enter_all
enter_all-Room segment mode [] b h room = room
enter_all-Room segment mode (r ∷ rs) b h room =
    bind-Ensures (BooksRoom segment) _ (enter segment mode r b) _
      (enter-Room segment mode r b h room) (λ b' room'. enter_all-Room segment mode rs b' h room')

or_zero-sum_slots :
    (req : ℕ) (lengths : Lengths) (slots : List (ℕ × ℕ))
    → or_zero (dict_get req (sum_slots lengths slots))
      ≡ or_zero (dict_get req slots) + total req lengths * page
unfolding sum_slots
or_zero-sum_slots req [] slots = omega arith
or_zero-sum_slots req (((r, l), n) ∷ rest) slots =
    let new : ℕ = or_zero (dict_get r slots) + n * page in
    let after = or_zero-sum_slots req rest (dict_set r new slots) in
    let stored = dict_get-dict_set r req new slots in
    elim (Bool-cases (r == req)) [
      | inl q ↦
          let same : or_zero (dict_get r slots) ≡ or_zero (dict_get req slots) =
            ap (λ (x : ℕ). or_zero (dict_get x slots)) (ground (arith, q)) in
          let there : dict_get req (dict_set r new slots) ≡ some new = ground (arith, q, stored) in
          let found : or_zero (dict_get req (dict_set r new slots)) ≡ new = ap or_zero there in
          ground (arith, q, same, found, after)
      | inr q ↦
          let there : dict_get req (dict_set r new slots) ≡ dict_get req slots =
            ground (arith, q, stored) in
          let found : or_zero (dict_get req (dict_set r new slots)) ≡ or_zero (dict_get req slots) =
            ap or_zero there in
          ground (arith, q, found, after)
    ]

-- Rounded, the bytes that are enough still are.
round_slots-Room :
    (segment req rows : ℕ) (slots : List (ℕ × ℕ))
    → 0 < segment
    → or_zero (dict_get req slots) ≡ rows * page
    → Room segment rows (or_zero (dict_get req (round_slots segment slots)))
unfolding round_slots dict_get
round_slots-Room segment req rows [] h e = (omega (arith, e), (0, omega arith))
round_slots-Room segment req rows ((r, v) ∷ rest) h e = elim (Bool-cases (r == req)) [
  | inl q ↦
      let (above, below, multiple) = round_up_lem segment v h in
      let bytes : v ≡ rows * page = ground (arith, q, e) in
      rw q (omega (arith, bytes, above), multiple)
  | inr q ↦ rw q (round_slots-Room segment req rows rest h (ground (arith, q, e)))
]

final_slots-Room :
    (segment : ℕ) (mode : Mode) (b : Books)
    → 0 < segment
    → BooksRoom segment b
    → (req : ℕ)
    → Room segment (total req b.lengths) (or_zero (dict_get req (final_slots segment mode b)))
unfolding final_slots
final_slots-Room segment online b h room req = room req
final_slots-Room segment snapshot b h room req =
    round_slots-Room segment req (total req b.lengths) (sum_slots b.lengths []) h
      (or_zero-sum_slots req b.lengths [] ∙ (unfold dict_get in omega arith))

enter_all-lengths :
    (segment : ℕ) (mode : Mode) (rs : List Record) (b : Books)
    → Ensures (λ (b' : Books). b'.lengths ≡ lengths_of rs b.lengths) (enter_all segment mode rs b)
unfolding enter_all lengths_of enter
enter_all-lengths segment mode [] b = refl
enter_all-lengths segment mode (r ∷ rs) b =
    bind-Ensures (λ (b' : Books). b'.lengths ≡ grow (key_of r) r.context_length b.lengths) _
      (enter segment mode r b) _
      (unless_raised _ (is_online mode && ltb r.step_id (or_zero (dict_get r.request_id b.steps)))
        value_error _
        (λ _.
          unless_raised _
            (is_online mode && ltb r.context_length (or_zero (base_of (key_of r) b.lengths)))
            value_error _ (λ _. refl)))
      (λ b' same.
        weaken (λ (b'' : Books). b''.lengths ≡ lengths_of rs b'.lengths) _
          (enter_all segment mode rs b') (enter_all-lengths segment mode rs b')
          (λ b'' e. e ∙ ap (lengths_of rs) same))

no_books-Room : (segment : ℕ) → BooksRoom segment no_books
unfolding dict_get
no_books-Room segment req = (omega arith, (0, omega arith))

-- What `geometry` gives: lengths that no record exceeds, and for each request whole segments with room for
-- the rows of all its layers.
abbrev pub Planned : ℕ → List Record → Lengths × List (ℕ × ℕ) → Type 0
Planned segment records (lengths, slots) =
    All (λ (r : Record). AtLeast (key_of r) r.context_length lengths) records
    × ((req : ℕ) → Room segment (total req lengths) (or_zero (dict_get req slots)))

-- With a positive segment, what `geometry` gives in either mode has for each record a length of at least its
-- context, and for each request a number of bytes that is a multiple of the segment and enough for the rows
-- of all its layers.
pub geometry-Planned :
    (segment : ℕ) (mode : Mode) (records : List Record)
    → 0 < segment
    → Ensures (Planned segment records) (geometry segment mode records)
unfolding geometry
geometry-Planned segment mode records h =
    bind-Ensures (λ (b : Books). BooksRoom segment b × (b.lengths ≡ lengths_of records [])) _
      (enter_all segment mode records no_books) _
      (both _ _ (enter_all segment mode records no_books)
        (enter_all-Room segment mode records no_books h (no_books-Room segment))
        (enter_all-lengths segment mode records no_books))
      (λ b (room, same). (
        subst
            (λ (lengths : Lengths).
              All (λ (r : Record). AtLeast (key_of r) r.context_length lengths) records)
            (sym same) (lengths_of-All records []),
        final_slots-Room segment mode b h room,
      ))
