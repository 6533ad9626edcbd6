-- ===== src/Bench/Order.antt =====
-- When a trace can be replayed online: `geometry` of bmpclient/bench/layout_replay.py.
use ummwith_client.Prelude.{
  ℕ, ◌≡◌, refl, ap, ◌∙◌, inl, inr, ltb, leb, not, ◌||◌, Error, ◌==◌, ◌&&◌, Bool, true, false,
  Bool-cases, Option, none, some, List, [], ◌∷◌, if◌then◌else◌, arith, Result, ok, err, value_error,
  ◌>>=◌,
}
use ummwith_client.Prelude.Dict.{dict_get, dict_set}
use ummwith_client.Bench.Trace.{Record, key_eq, key_of, base_of, grow}
use ummwith_client.Bench.Geometry.{
  online, snapshot, Books, or_zero, add_slots, enter, enter_all, no_books, geometry,
}
use ummwith_client.Bench.Latest.{length_of, step-next, length-next}

-- A record may follow on the books: its step and its context are not below the last.
follows : Books → Record → Bool
follows b r =
    leb (or_zero (dict_get r.request_id b.steps)) r.step_id
    && leb (length_of r.request_id r.layer_id b.lengths) r.context_length

-- A record and one that comes later: the step of a request does not decrease, nor does the context of a
-- request and layer.
abbrev pub before : Record → Record → Bool
before r later =
    (not (r.request_id == later.request_id) || leb r.step_id later.step_id)
    && (not (key_eq (key_of r) (key_of later)) || leb r.context_length later.context_length)

abbrev pub every : (Record → Bool) → List Record → Bool
every p [] = true
every p (r ∷ rs) = p r && every p rs

-- Each record comes before all later ones.
abbrev pub keeps_order : List Record → Bool
keeps_order [] = true
keeps_order (r ∷ rs) = every (before r) rs && keeps_order rs

abbrev pub error_of : {A : Type 0} → Result A → Option Error
error_of (ok a) = none
error_of (err e) = some e

-- The books after a record.
next : ℕ → Record → Books → Books
next segment r b = record {
  lengths = grow (key_of r) r.context_length b.lengths;
  slots =
      add_slots segment r.request_id (or_zero (base_of (key_of r) b.lengths)) r.context_length
        b.slots;
  steps = dict_set r.request_id r.step_id b.steps;
}

error_of-enter_all :
    (segment : ℕ) (r : Record) (rs : List Record) (b : Books)
    → error_of (enter_all segment online (r ∷ rs) b) ≡ (
        if follows b r
        then error_of (enter_all segment online rs (next segment r b))
        else some value_error)
unfolding enter_all enter follows next length_of
error_of-enter_all segment r rs b =
    elim (Bool-cases (ltb r.step_id (or_zero (dict_get r.request_id b.steps)))) [
      | inl e ↦
          let low : leb (or_zero (dict_get r.request_id b.steps)) r.step_id ≡ false =
            ground (arith, e) in
          rw (e, low) refl
      | inr e ↦
          let high : leb (or_zero (dict_get r.request_id b.steps)) r.step_id ≡ true =
            ground (arith, e) in
          elim (Bool-cases (ltb r.context_length (or_zero (base_of (key_of r) b.lengths)))) [
            | inl e' ↦
                let short : leb (or_zero (base_of (key_of r) b.lengths)) r.context_length ≡ false =
                  ground (arith, e') in
                rw (e, e', high, short) refl
            | inr e' ↦
                let long : leb (or_zero (base_of (key_of r) b.lengths)) r.context_length ≡ true =
                  ground (arith, e') in
                rw (e, e', high, long) refl
          ]
    ]

and_swap : (a b c d : Bool) → ((a && b) && (c && d)) ≡ ((a && c) && (b && d))
and_swap true true c d = refl
and_swap true false true d = refl
and_swap true false false d = refl
and_swap false b c d = refl

-- A later record follows on the new books if it follows on the old ones and the record comes before it.
follows-next :
    (segment : ℕ) (r later : Record) (b : Books)
    → leb (or_zero (dict_get r.request_id b.steps)) r.step_id ≡ true
    → follows (next segment r b) later ≡ (follows b later && before r later)
unfolding follows next
follows-next segment r later b h =
    let steps = step-next r.request_id later.request_id r.step_id later.step_id b.steps h in
    let lengths =
      length-next r.request_id r.layer_id later.request_id later.layer_id r.context_length
        later.context_length b.lengths in
    (λ i. steps i && lengths i)
    ∙ and_swap (leb (or_zero (dict_get later.request_id b.steps)) later.step_id)
        (not (r.request_id == later.request_id) || leb r.step_id later.step_id)
        (leb (length_of later.request_id later.layer_id b.lengths) later.context_length)
        (not (key_eq (key_of r) (key_of later)) || leb r.context_length later.context_length)

every-next :
    (segment : ℕ) (r : Record) (rs : List Record) (b : Books)
    → leb (or_zero (dict_get r.request_id b.steps)) r.step_id ≡ true
    → every (follows (next segment r b)) rs ≡ (every (follows b) rs && every (before r) rs)
every-next segment r [] b h = refl
every-next segment r (later ∷ rs) b h =
    (λ i. follows-next segment r later b h i && every-next segment r rs b h i)
    ∙ and_swap (follows b later) (before r later) (every (follows b) rs) (every (before r) rs)

and_assoc : (a b c : Bool) → (a && b && c) ≡ (a && (b && c))
and_assoc true b c = refl
and_assoc false b c = refl

follows-step :
    (r : Record) (b : Books)
    → follows b r ≡ true
    → leb (or_zero (dict_get r.request_id b.steps)) r.step_id ≡ true
unfolding follows
follows-step r b e =
    left_true _ (leb (length_of r.request_id r.layer_id b.lengths) r.context_length) e
  where
    left_true : (a b : Bool) → (a && b) ≡ true → a ≡ true
    left_true true b e = refl
    left_true false b e = e

error_of-keeps_order :
    (segment : ℕ) (rs : List Record) (b : Books)
    → error_of (enter_all segment online rs b)
      ≡ (if every (follows b) rs && keeps_order rs then none else some value_error)
error_of-keeps_order segment [] b = unfold enter_all in refl
error_of-keeps_order segment (r ∷ rs) b =
    let first = error_of-enter_all segment r rs b in
    elim (Bool-cases (follows b r)) [
      | inl e ↦
          let later = error_of-keeps_order segment rs (next segment r b) in
          rw (first, e, later, every-next segment r rs b (follows-step r b e))
            (ap (λ (c : Bool). if c then none else some value_error)
              (and_assoc (every (follows b) rs) (every (before r) rs) (keeps_order rs)))
      | inr e ↦ rw (first, e) refl
    ]

error_of-then :
    {A B : Type 0} (r : Result A) (f : A → B) → error_of (r >>= (λ a. ok (f a))) ≡ error_of r
error_of-then (ok a) f = refl
error_of-then (err e) f = refl

every-no_books : (rs : List Record) → every (follows no_books) rs ≡ true
unfolding follows dict_get length_of
every-no_books [] = refl
every-no_books (r ∷ rs) =
    let low : leb 0 r.step_id ≡ true = ground arith in
    let short : leb 0 r.context_length ≡ true = ground arith in rw (low, short) (every-no_books rs)

snapshot_accepts :
    (segment : ℕ) (rs : List Record) (b : Books) → error_of (enter_all segment snapshot rs b) ≡ none
unfolding enter_all enter
snapshot_accepts segment [] b = refl
snapshot_accepts segment (r ∷ rs) b = snapshot_accepts segment rs _

-- Online, `geometry` accepts a trace exactly when no record has a lower step than an earlier one of its
-- request, nor a shorter context than an earlier one of its request and layer; it refuses the others by a
-- ValueError. As a snapshot it accepts every trace.
pub geometry-keeps_order :
    (segment : ℕ) (records : List Record)
    → (error_of (geometry segment online records)
        ≡ (if keeps_order records then none else some value_error))
      × (error_of (geometry segment snapshot records) ≡ none)
unfolding geometry
geometry-keeps_order segment records = (
  error_of-then (enter_all segment online records no_books) _
      ∙ error_of-keeps_order segment records no_books
      ∙ ap (λ (c : Bool). if c && keeps_order records then none else some value_error)
          (every-no_books records),
  error_of-then (enter_all segment snapshot records no_books) _
      ∙ snapshot_accepts segment records no_books,
)
