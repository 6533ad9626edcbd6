-- ===== src/Bench/Verdict.antt =====
-- Which traces `validate_miss_trace` of bmpclient/bench/layout_replay.py refuses.
use ummwith_client.Prelude.{
  ℕ, zero, suc, ◌≡◌, refl, sym, inl, inr, ◌⊎◌, ◌||◌, Bool, true, false, not, Bool-cases, Option,
  none, some, List, [], ◌∷◌, length, All, arith, Result, ok, err, value_error, ◌>>=◌,
}
use ummwith_client.Prelude.Int.{pos, negsuc}
use ummwith_client.Prelude.SortedSet.{member}
use ummwith_client.Prelude.Ensures.{Ensures, OnlyValueError, only-bind, only-raise_if}
use ummwith_client.Bench.Trace.{truth, int, text, other, Json, scalar, array, Record, key_eq}
use ummwith_client.Bench.MissTrace.{
  warmup_field, count_field, strategy_field, inconsistent, add_setting, check_miss, check_misses,
  only_setting, validate_miss_trace,
}
use ummwith_client.Bench.Scenario.{Measured, OneScenario, validate_miss_trace-OneScenario}
use ummwith_client.Bench.Fields.{InScenario, Warm}

only-warmup_field : (f : Option Json) → OnlyValueError (warmup_field f)
unfolding warmup_field
only-warmup_field none = refl
only-warmup_field (some (array xs)) = refl
only-warmup_field (some (scalar (int n))) = refl
only-warmup_field (some (scalar (truth b))) = tt
only-warmup_field (some (scalar (text t))) = refl
only-warmup_field (some (scalar other)) = refl

only-count_field : (f : Option Json) → OnlyValueError (count_field f)
unfolding count_field
only-count_field none = refl
only-count_field (some (array xs)) = refl
only-count_field (some (scalar (int (pos n)))) = tt
only-count_field (some (scalar (int (negsuc n)))) = refl
only-count_field (some (scalar (truth b))) = refl
only-count_field (some (scalar (text t))) = refl
only-count_field (some (scalar other)) = refl

only-strategy_field : (names : List ℕ) (f : Option Json) → OnlyValueError (strategy_field names f)
unfolding strategy_field
only-strategy_field names none = refl
only-strategy_field names (some (array xs)) = refl
only-strategy_field names (some (scalar (int n))) = refl
only-strategy_field names (some (scalar (truth b))) = refl
only-strategy_field names (some (scalar (text t))) = elim (Bool-cases (member t names)) [
  | inl e ↦ rw e tt
  | inr e ↦ rw e refl
]
only-strategy_field names (some (scalar other)) = refl

only-counted :
    {A : Type 0} (f : Option Json) (k : ℕ → Result A)
    → ((n : ℕ) → OnlyValueError (k n))
    → OnlyValueError (count_field f >>= k)
only-counted f k h = only-bind (count_field f) k (only-count_field f) h

only-check_miss : (names : List ℕ) (r : Record) → OnlyValueError (check_miss names r)
unfolding check_miss
only-check_miss names r =
    only-bind (warmup_field r.fields.warmup) _ (only-warmup_field r.fields.warmup) (λ warmup.
      only-counted r.fields.selected _ (λ selected.
        only-counted r.fields.cache_hits _ (λ cache_hits.
          only-counted r.fields.fresh_hits _ (λ fresh_hits.
            only-counted r.fields.misses _ (λ misses.
              only-counted r.fields.replacements _ (λ replacements.
                only-counted r.fields.cache_capacity _ (λ capacity.
                  only-raise_if
                    (inconsistent selected cache_hits fresh_hits misses capacity r.indices) _
                    (only-bind (strategy_field names r.fields.cache_strategy)
                      (λ strategy.
                        let found : Result (Bool × (ℕ × ℕ)) = ok (warmup, (capacity, strategy)) in
                        found)
                      (only-strategy_field names r.fields.cache_strategy) (λ strategy. tt)))))))))

only-check_misses :
    (names : List ℕ) (rs : List Record) (measured : Bool) (settings : List (ℕ × ℕ))
    → OnlyValueError (check_misses names rs measured settings)
unfolding check_misses
only-check_misses names [] measured settings = tt
only-check_misses names (r ∷ rs) measured settings =
    only-bind (check_miss names r) _ (only-check_miss names r) (λ checked.
      only-check_misses names rs (measured || not checked.0) (add_setting checked.1 settings))

only-only_setting :
    (measured : Bool) (settings : List (ℕ × ℕ)) → OnlyValueError (only_setting measured settings)
unfolding only_setting
only-only_setting measured [] = refl
only-only_setting true (s ∷ []) = tt
only-only_setting false (s ∷ []) = refl
only-only_setting measured (s ∷ t ∷ ts) = refl

only-validate_miss_trace :
    (names : List ℕ) (records : List Record) → OnlyValueError (validate_miss_trace names records)
unfolding validate_miss_trace
only-validate_miss_trace names records =
    only-bind (check_misses names records false []) _ (only-check_misses names records false [])
      (λ seen. only-only_setting seen.0 seen.1)

-- A batch of the scenario passes.
check_miss-passes :
    (names : List ℕ) (capacity strategy : ℕ) (r : Record)
    → InScenario names capacity strategy r
    → (warmup : Bool) × Warm warmup r × (check_miss names r ≡ ok (warmup, (capacity, strategy)))
unfolding check_miss warmup_field count_field strategy_field
check_miss-passes names capacity strategy r
      (
        warmup, replacements, selected, cache_hits, fresh_hits, warm, p, s, c, f, m, k, named,
        known, once, sum, few, wide,
      ) =
    let consistent : inconsistent selected cache_hits fresh_hits (length r.indices) capacity
          r.indices
        ≡ false =
      ground (arith, once, sum, few, wide) in
    (warmup, warm, rw (warm, p, s, c, f, m, k, named, known, consistent) refl)

cold_first :
    (measured warmup : Bool) (r : Record)
    → Warm warmup r
    → Warm false r
    → (measured || not warmup) ≡ true
cold_first true warmup r warm cold = refl
cold_first false false r warm cold = refl
cold_first false true r warm cold = cc (warm, cold)

now_or_later :
    (measured warmup : Bool) (r : Record) (rs : List Record)
    → Warm warmup r
    → (measured ≡ true) ⊎ Measured (r ∷ rs)
    → ((measured || not warmup) ≡ true) ⊎ Measured rs
now_or_later true warmup r rs warm (inl e) = inl refl
now_or_later false warmup r rs warm (inl e) = cc
now_or_later measured warmup r rs warm (inr (zero, x, there, cold)) =
    inl (cold_first measured warmup r warm (same_record x r (sym there) cold))
  where
    same_record : (x r : Record) → some x ≡ some r → Warm false x → Warm false r
    same_record x r e cold = cc
now_or_later measured warmup r rs warm (inr (suc i, x, there, cold)) = inr (i, x, there, cold)

no_later : (measured : Bool) → (measured ≡ true) ⊎ Measured [] → measured ≡ true
no_later measured (inl e) = e
no_later measured (inr (i, x, there, cold)) = cc there

-- With no setting but that of the scenario, the loop accepts all batches of it.
check_misses-passes :
    (names : List ℕ) (c s : ℕ) (rs : List Record) (measured : Bool)
    → All (InScenario names c s) rs
    → (measured' : Bool) × (check_misses names rs measured ((c, s) ∷ [])
        ≡ ok (measured', (c, s) ∷ []))
      × ((measured ≡ true) ⊎ Measured rs → measured' ≡ true)
unfolding check_misses add_setting
check_misses-passes names c s [] measured h = (measured, refl, no_later measured)
check_misses-passes names c s (r ∷ rs) measured (h, hs) =
    let (warmup, warm, passes) = check_miss-passes names c s r h in
    let (measured', rest, counted) = check_misses-passes names c s rs (measured || not warmup) hs in
    let known : key_eq (c, s) (c, s) ≡ true = ground arith in
    (measured', rw (passes, known) rest, λ m. counted (now_or_later measured warmup r rs warm m))

-- One batch or more of a scenario, one of them measured, are accepted with its capacity and strategy.
OneScenario-accepted :
    (names : List ℕ) (c s : ℕ) (records : List Record)
    → OneScenario names records (c, s)
    → validate_miss_trace names records ≡ ok (c, s)
unfolding validate_miss_trace check_misses add_setting only_setting
OneScenario-accepted names c s [] (h, (i, x, there, cold)) = cc there
OneScenario-accepted names c s (r ∷ rs) ((h, hs), m) =
    let (warmup, warm, passes) = check_miss-passes names c s r h in
    let (measured, rest, counted) = check_misses-passes names c s rs (not warmup) hs in
    let seen : measured ≡ true = counted (now_or_later false warmup r rs warm (inr m)) in
    rw (passes, rest, seen) refl

-- The capacity and the strategy of the one scenario of the records, or a ValueError if there is none.
abbrev pub Verdict : List ℕ → List Record → Result (ℕ × ℕ) → Type 0
Verdict names records (ok setting) = OneScenario names records setting
Verdict names records (err e) =
    (e ≡ value_error) × ¬ ((setting : ℕ × ℕ) × OneScenario names records setting)

-- `validate_miss_trace` returns the capacity and the strategy of the one scenario of the records, or raises a
-- ValueError if they are not of one scenario. Of one scenario they are if each names the capacity and the
-- strategy, a known one, and has a flag for the warm-up and the counts; its misses are its tokens, each once,
-- and with the hits they are the selected tokens, no more than 2048, which the capacity is not below; and one
-- record is not of the warm-up.
pub validate_miss_trace-Verdict :
    (names : List ℕ) (records : List Record)
    → Verdict names records (validate_miss_trace names records)
validate_miss_trace-Verdict names records =
    by_result (validate_miss_trace names records) refl
      (validate_miss_trace-OneScenario names records) (only-validate_miss_trace names records)
  where
    by_result :
        (r : Result (ℕ × ℕ))
        → validate_miss_trace names records ≡ r
        → Ensures (OneScenario names records) r
        → OnlyValueError r
        → Verdict names records r
    by_result (ok setting) e scenario only = scenario
    by_result (err x) e scenario only =
        (only, λ ((c, s), one). cc (e, OneScenario-accepted names c s records one))
