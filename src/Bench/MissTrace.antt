-- ===== src/Bench/MissTrace.antt =====
-- `validate_miss_trace` of bmpclient/bench/layout_replay.py. `names` are the numbers of the three texts that
-- name a cache strategy.
use ummwith_client.Prelude.{
  ℕ, ◌+◌, ltb, ◌==◌, ◌||◌, Bool, false, not, Option, none, some, List, [], ◌∷◌, if◌then◌else◌,
  length, Result, ok, err, value_error, raise_if, ◌>>=◌, ◌>>◌,
}
use ummwith_client.Prelude.Int.{pos, negsuc}
use ummwith_client.Prelude.SortedSet.{member, sorted_set}
use ummwith_client.Bench.Trace.{truth, int, text, other, Json, scalar, array, Record, key_eq}

-- `type(r.get('warmup')) is bool`
unfoldable pub warmup_field : Option Json → Result Bool
warmup_field (some (scalar (truth b))) = ok b
warmup_field (some (scalar (int n))) = err value_error
warmup_field (some (scalar (text t))) = err value_error
warmup_field (some (scalar other)) = err value_error
warmup_field (some (array xs)) = err value_error
warmup_field none = err value_error

-- A field that is an integer and not negative.
unfoldable pub count_field : Option Json → Result ℕ
count_field (some (scalar (int (pos n)))) = ok n
count_field (some (scalar (int (negsuc n)))) = err value_error
count_field (some (scalar (truth b))) = err value_error
count_field (some (scalar (text t))) = err value_error
count_field (some (scalar other)) = err value_error
count_field (some (array xs)) = err value_error
count_field none = err value_error

unfoldable pub strategy_field : List ℕ → Option Json → Result ℕ
strategy_field names (some (scalar (text t))) = if member t names then ok t else err value_error
strategy_field names (some (scalar (int n))) = err value_error
strategy_field names (some (scalar (truth b))) = err value_error
strategy_field names (some (scalar other)) = err value_error
strategy_field names (some (array xs)) = err value_error
strategy_field names none = err value_error

-- `settings.add(...)`
unfoldable pub add_setting : ℕ × ℕ → List (ℕ × ℕ) → List (ℕ × ℕ)
add_setting s [] = s ∷ []
add_setting s (t ∷ ts) = if key_eq t s then t ∷ ts else t ∷ add_setting s ts

-- The condition of 'inconsistent miss trace counts'.
abbrev pub inconsistent : ℕ → ℕ → ℕ → ℕ → ℕ → List ℕ → Bool
inconsistent selected cache_hits fresh_hits misses capacity indices =
    not (misses == length indices)
    || not (length (sorted_set indices) == misses)
    || not (selected == cache_hits + fresh_hits + misses)
    || ltb 2048 selected
    || ltb capacity 2048

-- The body of the loop: whether the batch is one of the warm-up, and its setting.
unfoldable pub check_miss : List ℕ → Record → Result (Bool × (ℕ × ℕ))
unfolding warmup_field count_field strategy_field sorted_set
check_miss names r = do
  warmup ← warmup_field r.fields.warmup
  selected ← count_field r.fields.selected
  cache_hits ← count_field r.fields.cache_hits
  fresh_hits ← count_field r.fields.fresh_hits
  misses ← count_field r.fields.misses
  replacements ← count_field r.fields.replacements
  capacity ← count_field r.fields.cache_capacity
  raise_if (inconsistent selected cache_hits fresh_hits misses capacity r.indices) value_error
  strategy ← strategy_field names r.fields.cache_strategy
  ok (warmup, (capacity, strategy))

-- The loop: whether some batch is measured, and the settings.
unfoldable pub check_misses :
    List ℕ → List Record → Bool → List (ℕ × ℕ) → Result (Bool × List (ℕ × ℕ))
unfolding check_miss add_setting
check_misses names [] measured settings = ok (measured, settings)
check_misses names (r ∷ rs) measured settings = do
  checked ← check_miss names r
  check_misses names rs (measured || not checked.0) (add_setting checked.1 settings)

-- `len(settings) != 1`, and what `settings.pop()` gives.
unfoldable pub only_setting : Bool → List (ℕ × ℕ) → Result (ℕ × ℕ)
only_setting measured [] = err value_error
only_setting measured (s ∷ []) = if measured then ok s else err value_error
only_setting measured (s ∷ t ∷ ts) = err value_error

-- The capacity and the strategy.
unfoldable pub validate_miss_trace : List ℕ → List Record → Result (ℕ × ℕ)
unfolding check_misses only_setting
validate_miss_trace names records = do
  seen ← check_misses names records false []
  only_setting seen.0 seen.1
