-- ===== src/Tests/Traces.antt =====
-- Runs and instances for the traces and read plans of the benchmarks.
use ummwith_client.Prelude.{
  ℕ, ◌+◌, ◌/◌, ◌≤◌, ◌≡◌, refl, true, none, some, List, [], ◌∷◌, ok, err, value_error,
}
use ummwith_client.Prelude.Int.{pos}
use ummwith_client.Prelude.SortedSet.{member, Ascending, sorted_set, insert_token}
use ummwith_client.Bench.MultiDevice.{page}
use ummwith_client.Bench.ReadPlan.{
  Run, wanted, plan_rows, place_of, slots_of, add_row, add_rows, in_order,
}
use ummwith_client.Bench.Runs.{plan_rows_lem, Names, spans, numbered, Sized}
use ummwith_client.Bench.Trace.{
  Scalar, int, text, scalar, array, Fields, Line, blank, object, Record, Trace, integer,
  integer_field, name_field, check_tokens, tokens_field, read_record, read_lines, insert_key,
  update_key, grow, lengths_of, lay_out, load_trace, base_of,
}
use ummwith_client.Bench.Bases.{Apart}
use ummwith_client.Bench.Loads.{Loaded, load_trace-Loaded, load_trace-Apart}

-- Token 5 is wanted twice, and 5, 6 and 7 are one run.
plan_run :
    plan_rows (6 ∷ 5 ∷ 9 ∷ 5 ∷ 7 ∷ []) 100 true 8192
    ≡ ok (
      105 ∷ 106 ∷ 107 ∷ 109 ∷ [],
      1 ∷ 0 ∷ 3 ∷ 0 ∷ 2 ∷ [],
      record { start = 105; dst = 0; count = 2 }
          ∷ record { start = 107; dst = 2; count = 1 }
          ∷ record { start = 109; dst = 3; count = 1 }
          ∷ [],
    )
unfolding plan_rows sorted_set insert_token place_of slots_of add_row add_rows in_order
plan_run = refl

plan_rows_lem_example :
    (rows : List ℕ) × (slots : List ℕ) × (runs : List Run) × (plan_rows
        (6 ∷ 5 ∷ 9 ∷ 5 ∷ 7 ∷ [])
        100
        true
        8192
      ≡ ok (rows, slots, runs))
    × Ascending rows
    × ((w : ℕ) → member w rows ≡ member w (wanted 100 (6 ∷ 5 ∷ 9 ∷ 5 ∷ 7 ∷ [])))
    × Names rows (wanted 100 (6 ∷ 5 ∷ 9 ∷ 5 ∷ 7 ∷ [])) slots
    × (spans runs ≡ numbered 0 rows)
    × Sized true (8192 / page) runs
plan_rows_lem_example = plan_rows_lem (6 ∷ 5 ∷ 9 ∷ 5 ∷ 7 ∷ []) 100 true 8192

abbrev fields : ℕ → ℕ → ℕ → List Scalar → Fields
fields request layer ctx tokens = record {
  request_id = some (scalar (text request));
  step_id = some (scalar (int (pos 0)));
  layer_id = some (scalar (int (pos layer)));
  context_length = some (scalar (int (pos ctx)));
  topk_token_indices = some (array tokens);
  warmup = none;
  selected = none;
  cache_hits = none;
  fresh_hits = none;
  misses = none;
  replacements = none;
  cache_capacity = none;
  cache_strategy = none;
}

abbrev lines : List Line
lines =
    object (fields 2 0 5 (int (pos 4) ∷ []))
    ∷ blank
    ∷ object (fields 1 3 4 (int (pos 0) ∷ int (pos 3) ∷ []))
    ∷ object (fields 2 0 7 (int (pos 6) ∷ []))
    ∷ []

abbrev pub record_of : ℕ → ℕ → ℕ → List ℕ → List Scalar → Record
record_of request layer ctx indices tokens = record {
  request_id = request;
  step_id = 0;
  layer_id = layer;
  context_length = ctx;
  indices = indices;
  fields = fields request layer ctx tokens;
}

abbrev pub trace : Trace
trace = record {
  records =
      record_of 2 0 5 (4 ∷ []) (int (pos 4) ∷ [])
      ∷ record_of 1 3 4 (0 ∷ 3 ∷ []) (int (pos 0) ∷ int (pos 3) ∷ [])
      ∷ record_of 2 0 7 (6 ∷ []) (int (pos 6) ∷ [])
      ∷ [];
  bases = ((1, 3), 0) ∷ ((2, 0), 4) ∷ [];
  rows = 11;
}

trace_loads : load_trace 1 2 lines ≡ ok trace
unfolding integer integer_field name_field check_tokens tokens_field read_record read_lines
    insert_key update_key grow lengths_of lay_out load_trace
trace_loads = refl

-- A token of the context's length is refused.
token_outside : load_trace 1 2 (object (fields 1 0 5 (int (pos 5) ∷ [])) ∷ []) ≡ err value_error
unfolding integer integer_field name_field check_tokens tokens_field read_record read_lines
    load_trace
token_outside = refl

load_trace-Loaded_example : Loaded 1 2 (load_trace 1 2 lines)
load_trace-Loaded_example = load_trace-Loaded 1 2 lines

load_trace-Apart_example :
    (b : ℕ) × (b' : ℕ) × (base_of (2, 0) trace.bases ≡ some b)
    × (base_of (1, 3) trace.bases ≡ some b')
    × (b + 7 ≤ 11)
    × (b' + 4 ≤ 11)
    × Apart b 7 b' 4
load_trace-Apart_example =
    load_trace-Apart 1 2 lines trace 2 1 (record_of 2 0 7 (6 ∷ []) (int (pos 6) ∷ []))
      (record_of 1 3 4 (0 ∷ 3 ∷ []) (int (pos 0) ∷ int (pos 3) ∷ [])) trace_loads refl refl refl
