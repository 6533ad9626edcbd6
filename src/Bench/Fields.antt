-- ===== src/Bench/Fields.antt =====
-- What `validate_miss_trace` of bmpclient/bench/layout_replay.py asks of one record.
use ummwith_client.Prelude.{
  ℕ, ◌+◌, ◌≤◌, ◌≡◌, refl, ap, ◌∙◌, inl, inr, Bool, true, Bool-cases, Option, none, some, List,
  length, arith, value_error,
}
use ummwith_client.Prelude.Int.{pos, negsuc}
use ummwith_client.Prelude.SortedSet.{member, sorted_set}
use ummwith_client.Prelude.Ensures.{Ensures, bind-Ensures, unless_raised}
use ummwith_client.Bench.Trace.{truth, int, text, other, Json, scalar, array, Record}
use ummwith_client.Bench.MissTrace.{
  warmup_field, count_field, strategy_field, inconsistent, check_miss,
}

-- A field holds a number.
abbrev pub Holds : ℕ → Option Json → Type 0
Holds n f = f ≡ some (scalar (int (pos n)))

count_field-Holds : (f : Option Json) → Ensures (λ (n : ℕ). Holds n f) (count_field f)
unfolding count_field
count_field-Holds none = tt
count_field-Holds (some (array xs)) = tt
count_field-Holds (some (scalar (int (pos n)))) = refl
count_field-Holds (some (scalar (int (negsuc n)))) = tt
count_field-Holds (some (scalar (truth b))) = tt
count_field-Holds (some (scalar (text t))) = tt
count_field-Holds (some (scalar other)) = tt

warmup_field-eq :
    (f : Option Json) → Ensures (λ (b : Bool). f ≡ some (scalar (truth b))) (warmup_field f)
unfolding warmup_field
warmup_field-eq none = tt
warmup_field-eq (some (array xs)) = tt
warmup_field-eq (some (scalar (int n))) = tt
warmup_field-eq (some (scalar (truth b))) = refl
warmup_field-eq (some (scalar (text t))) = tt
warmup_field-eq (some (scalar other)) = tt

strategy_field-eq :
    (names : List ℕ) (f : Option Json)
    → Ensures
        (λ (t : ℕ). (f ≡ some (scalar (text t))) × (member t names ≡ true))
        (strategy_field names f)
unfolding strategy_field
strategy_field-eq names none = tt
strategy_field-eq names (some (array xs)) = tt
strategy_field-eq names (some (scalar (int n))) = tt
strategy_field-eq names (some (scalar (truth b))) = tt
strategy_field-eq names (some (scalar (text t))) = elim (Bool-cases (member t names)) [
  | inl e ↦ rw e (refl, e)
  | inr e ↦ rw e tt
]
strategy_field-eq names (some (scalar other)) = tt

abbrev pub Warm : Bool → Record → Type 0
Warm b r = r.fields.warmup ≡ some (scalar (truth b))

-- The counts of a batch in a scenario: its misses are its tokens, each once, and with the hits they are the
-- selected tokens, no more than 2048.
abbrev pub InScenario : List ℕ → ℕ → ℕ → Record → Type 0
InScenario names capacity strategy r =
    (warmup : Bool) × (replacements : ℕ) × (selected : ℕ) × (cache_hits : ℕ) × (fresh_hits : ℕ)
    × Warm warmup r
    × Holds replacements r.fields.replacements
    × Holds selected r.fields.selected
    × Holds cache_hits r.fields.cache_hits
    × Holds fresh_hits r.fields.fresh_hits
    × Holds (length r.indices) r.fields.misses
    × Holds capacity r.fields.cache_capacity
    × (r.fields.cache_strategy ≡ some (scalar (text strategy)))
    × (member strategy names ≡ true)
    × (length (sorted_set r.indices) ≡ length r.indices)
    × (selected ≡ cache_hits + fresh_hits + length r.indices)
    × (selected ≤ 2048)
    × (2048 ≤ capacity)

unfoldable pub Accepted : List ℕ → Record → Bool × (ℕ × ℕ) → Type 0
Accepted names r (warmup, (capacity, strategy)) =
    Warm warmup r × InScenario names capacity strategy r

pub check_miss-Accepted :
    (names : List ℕ) (r : Record) → Ensures (Accepted names r) (check_miss names r)
unfolding check_miss Accepted
check_miss-Accepted names r =
    let Q : Bool × (ℕ × ℕ) → Type 0 = Accepted names r in
    bind-Ensures _ Q (warmup_field r.fields.warmup) _ (warmup_field-eq r.fields.warmup)
      (λ warmup warm.
        bind-Ensures _ Q (count_field r.fields.selected) _ (count_field-Holds r.fields.selected)
          (λ selected s.
            bind-Ensures _ Q (count_field r.fields.cache_hits) _
              (count_field-Holds r.fields.cache_hits)
              (λ cache_hits c.
                bind-Ensures _ Q (count_field r.fields.fresh_hits) _
                  (count_field-Holds r.fields.fresh_hits)
                  (λ fresh_hits f.
                    bind-Ensures _ Q (count_field r.fields.misses) _
                      (count_field-Holds r.fields.misses)
                      (λ misses m.
                        bind-Ensures _ Q (count_field r.fields.replacements) _
                          (count_field-Holds r.fields.replacements)
                          (λ replacements p.
                            bind-Ensures _ Q (count_field r.fields.cache_capacity) _
                              (count_field-Holds r.fields.cache_capacity)
                              (λ capacity k.
                                unless_raised Q
                                  (inconsistent selected cache_hits fresh_hits misses capacity
                                    r.indices)
                                  value_error _
                                  (λ consistent.
                                    bind-Ensures _ Q (strategy_field names r.fields.cache_strategy)
                                      _ (strategy_field-eq names r.fields.cache_strategy)
                                      (λ strategy (named, known).
                                        let all : misses ≡ length r.indices =
                                          ground (arith, consistent) in
                                        (
                                          warm,
                                          (
                                            warmup,
                                            replacements,
                                            selected,
                                            cache_hits,
                                            fresh_hits,
                                            warm,
                                            p,
                                            s,
                                            c,
                                            f,
                                            m ∙ ap (λ (n : ℕ). some (scalar (int (pos n)))) all,
                                            k,
                                            named,
                                            known,
                                            ground (arith, consistent),
                                            ground (arith, consistent),
                                            ground (arith, consistent),
                                            ground (arith, consistent),
                                          ),
                                        ))))))))))
