-- ===== src/Bench/Loads.antt =====
-- What `load_trace` of bmpclient/bench/single_ssd.py gives.
use ummwith_client.Prelude.{
  ℕ, suc, ◌+◌, ◌≤◌, ◌<◌, ◌≡◌, refl, sym, subst, inl, inr, ◌==◌, false, Result-cases, some, List, [],
  ◌∷◌, length, get_elem?, All, All-get_elem?, arith, Result, ok, err, value_error, raise_if, ◌>>◌,
}
use ummwith_client.Prelude.Ensures.{Ensures, OnlyValueError, only-bind}
use ummwith_client.Bench.MultiDevice.{Lengths}
use ummwith_client.Bench.Trace.{
  Line, blank, malformed, not_object, object, Record, Trace, on_line, read_record, read_lines,
  key_eq, key_of, lengths_of, lay_out, load_trace, base_of,
}
use ummwith_client.Bench.Checks.{WellFormed, read_lines-WellFormed}
use ummwith_client.Bench.Bases.{lengths_of-All, lay_out-base, Apart, lay_out-Apart}

-- What the trace comes to: records that passed, one at least, and the layout of the rows they need.
Built : ℕ → ℕ → Result Trace → Type 0
Built minimum max_topk (ok trace) =
    All (WellFormed minimum max_topk) trace.records
    × (0 < length trace.records)
    × (trace.bases ≡ (lay_out 0 (lengths_of trace.records [])).0)
    × (trace.rows ≡ (lay_out 0 (lengths_of trace.records [])).1)
Built minimum max_topk (err e) = e ≡ value_error

only-on_line : {A : Type 0} (r : Result A) → OnlyValueError (on_line r)
only-on_line (ok a) = tt
only-on_line (err e) = refl

only-read_lines :
    (minimum max_topk : ℕ) (lines : List Line) → OnlyValueError (read_lines minimum max_topk lines)
unfolding read_lines
only-read_lines minimum max_topk [] = tt
only-read_lines minimum max_topk (blank ∷ lines) = only-read_lines minimum max_topk lines
only-read_lines minimum max_topk (malformed ∷ lines) = refl
only-read_lines minimum max_topk (not_object ∷ lines) = refl
only-read_lines minimum max_topk (object f ∷ lines) =
    only-bind (on_line (read_record minimum max_topk f)) _
      (only-on_line (read_record minimum max_topk f))
      (λ r.
        only-bind (read_lines minimum max_topk lines) _ (only-read_lines minimum max_topk lines)
          (λ rs. tt))

-- The steps of `load_trace` after the lines.
finish_trace : List Record → Result Trace
finish_trace records = do
  raise_if (length records == 0) value_error
  let (bases, rows) = lay_out 0 (lengths_of records [])
  ok (record { records = records; bases = bases; rows = rows })

finish_trace-Built :
    (minimum max_topk : ℕ) (records : List Record)
    → All (WellFormed minimum max_topk) records
    → Built minimum max_topk (finish_trace records)
unfolding finish_trace Built
finish_trace-Built minimum max_topk [] h = refl
finish_trace-Built minimum max_topk (r ∷ rs) h =
    let some_record : (suc (length rs) == 0) ≡ false = ground arith in
    rw some_record (h, omega arith, refl, refl)

load_trace-Built :
    (minimum max_topk : ℕ) (lines : List Line)
    → Built minimum max_topk (load_trace minimum max_topk lines)
unfolding load_trace finish_trace Built
load_trace-Built minimum max_topk lines = elim (Result-cases (read_lines minimum max_topk lines)) [
  | inl (records, e) ↦
      rw (e, load_trace)
        (finish_trace-Built minimum max_topk records (
          subst (Ensures (All (WellFormed minimum max_topk))) e
            (read_lines-WellFormed minimum max_topk lines)))
  | inr (x, e) ↦
      rw (e, load_trace) (subst OnlyValueError e (only-read_lines minimum max_topk lines))
]

-- What `load_trace` may come to: a trace of one or more records that all passed, or a ValueError.
abbrev pub Loaded : ℕ → ℕ → Result Trace → Type 0
Loaded minimum max_topk (ok trace) =
    All (WellFormed minimum max_topk) trace.records × (0 < length trace.records)
Loaded minimum max_topk (err e) = e ≡ value_error

Built-Loaded :
    (minimum max_topk : ℕ) (r : Result Trace) → Built minimum max_topk r → Loaded minimum max_topk r
unfolding Built
Built-Loaded minimum max_topk (ok trace) (passed, some_record, bases, rows) = (passed, some_record)
Built-Loaded minimum max_topk (err e) h = h

-- A loaded trace has a record or more. Each has a named request, a token of context or more, and as many
-- tokens as the limits allow, all below its context length. The only error is a ValueError.
pub load_trace-Loaded :
    (minimum max_topk : ℕ) (lines : List Line)
    → Loaded minimum max_topk (load_trace minimum max_topk lines)
load_trace-Loaded minimum max_topk lines =
    Built-Loaded minimum max_topk (load_trace minimum max_topk lines)
      (load_trace-Built minimum max_topk lines)

Apart-le : (b n b' n' j k : ℕ) → j ≤ n → k ≤ n' → Apart b n b' n' → Apart b j b' k
Apart-le b n b' n' j k h h' (inl e) = inl (omega (arith, h, h', e))
Apart-le b n b' n' j k h h' (inr e) = inr (omega (arith, h, h', e))

-- Each record of a loaded trace finds a base whose rows lie within those of the trace, and the rows
-- of two records of different requests or layers lie apart.
pub load_trace-Apart :
    (minimum max_topk : ℕ) (lines : List Line) (trace : Trace) (i j : ℕ) (r r' : Record)
    → load_trace minimum max_topk lines ≡ ok trace
    → get_elem? trace.records i ≡ some r
    → get_elem? trace.records j ≡ some r'
    → key_eq (key_of r) (key_of r') ≡ false
    → (b : ℕ) × (b' : ℕ) × (base_of (key_of r) trace.bases ≡ some b)
      × (base_of (key_of r') trace.bases ≡ some b')
      × (b + r.context_length ≤ trace.rows)
      × (b' + r'.context_length ≤ trace.rows)
      × Apart b r.context_length b' r'.context_length
unfolding Built
load_trace-Apart minimum max_topk lines trace i j r r' loads at_i at_j different =
    let (passed, some_record, same_bases, same_rows) =
      subst (Built minimum max_topk) loads (load_trace-Built minimum max_topk lines) in
    let lengths = lengths_of trace.records [] in
    let (n, long, enough) =
      All-get_elem? _ trace.records i r (lengths_of-All trace.records []) at_i in
    let (n', long', enough') =
      All-get_elem? _ trace.records j r' (lengths_of-All trace.records []) at_j in
    let (b, found, above, below) = lay_out-base 0 r.request_id r.layer_id n lengths long in
    let (b', found', above', below') = lay_out-base 0 r'.request_id r'.layer_id n' lengths long' in
    let apart =
      lay_out-Apart 0 r.request_id r.layer_id n r'.request_id r'.layer_id n' b b' lengths different
        long long' found found' in
    (
      b,
      b',
      subst (λ (bases : Lengths). base_of (key_of r) bases ≡ some b) (sym same_bases) found,
      subst (λ (bases : Lengths). base_of (key_of r') bases ≡ some b') (sym same_bases) found',
      omega (arith, same_rows, below, enough),
      omega (arith, same_rows, below', enough'),
      Apart-le b n b' n' r.context_length r'.context_length enough enough' apart,
    )
