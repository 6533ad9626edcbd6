-- ===== src/Bench/Scenario.antt =====
-- What a trace that `validate_miss_trace` of bmpclient/bench/layout_replay.py accepts holds.
use ummwith_client.Prelude.{
  ℕ, suc, subst, ◌≡◌, refl, inl, inr, ◌⊎◌, ◌||◌, Bool, true, false, not, some, List, [], ◌∷◌,
  if◌then◌else◌, get_elem?, All, All-map, arith,
}
use ummwith_client.Prelude.Ensures.{Ensures, bind-Ensures, weaken}
use ummwith_client.Bench.Trace.{Record, key_eq}
use ummwith_client.Bench.MissTrace.{
  add_setting, check_miss, check_misses, only_setting, validate_miss_trace,
}
use ummwith_client.Bench.Fields.{Warm, InScenario, Accepted, check_miss-Accepted}

abbrev has_setting : ℕ → ℕ → List (ℕ × ℕ) → Bool
has_setting c s [] = false
has_setting c s (t ∷ ts) = if key_eq t (c, s) then true else has_setting c s ts

has_setting-add_setting :
    (c s c' s' : ℕ) (settings : List (ℕ × ℕ))
    → has_setting c s (add_setting (c', s') settings)
      ≡ (if key_eq (c', s') (c, s) then true else has_setting c s settings)
unfolding add_setting
has_setting-add_setting c s c' s' [] = refl
has_setting-add_setting c s c' s' ((a, b) ∷ rest) =
    ground (arith, has_setting-add_setting c s c' s' rest)

-- A batch of the records is not one of the warm-up.
abbrev pub Measured : List Record → Type 0
Measured rs = (i : ℕ) × (r : Record) × (get_elem? rs i ≡ some r) × Warm false r

InSome : List ℕ → List (ℕ × ℕ) → Record → Type 0
InSome names settings r =
    (c : ℕ) × (s : ℕ) × (has_setting c s settings ≡ true) × InScenario names c s r

Seen : List ℕ → List Record → Bool → List (ℕ × ℕ) → Bool × List (ℕ × ℕ) → Type 0
Seen names rs measured settings (measured', settings') =
    All (InSome names settings') rs
    × ((c s : ℕ) → has_setting c s settings ≡ true → has_setting c s settings' ≡ true)
    × ((measured ≡ true) ⊎ (measured' ≡ false) ⊎ Measured rs)

still-Measured :
    (measured warmup measured' : Bool) (r : Record) (rs : List Record)
    → Warm warmup r
    → ((measured || not warmup) ≡ true) ⊎ (measured' ≡ false) ⊎ Measured rs
    → (measured ≡ true) ⊎ (measured' ≡ false) ⊎ Measured (r ∷ rs)
still-Measured measured warmup measured' r rs warm (inr (inl e)) = inr (inl e)
still-Measured measured warmup measured' r rs warm (inr (inr (i, x, there, cold))) =
    inr (inr (suc i, x, there, cold))
still-Measured true warmup measured' r rs warm (inl e) = inl refl
still-Measured false false measured' r rs warm (inl e) = inr (inr (0, r, refl, warm))
still-Measured false true measured' r rs warm (inl e) = absurd (cc e)

check_misses-Seen :
    (names : List ℕ) (rs : List Record) (measured : Bool) (settings : List (ℕ × ℕ))
    → Ensures (Seen names rs measured settings) (check_misses names rs measured settings)
unfolding check_misses Seen InSome Accepted
check_misses-Seen names [] true settings = (tt, (λ c s h. h), inl refl)
check_misses-Seen names [] false settings = (tt, (λ c s h. h), inr (inl refl))
check_misses-Seen names (r ∷ rs) measured settings =
    bind-Ensures (Accepted names r) _ (check_miss names r) _ (check_miss-Accepted names r)
      (λ (warmup, (c, s)) (warm, fits).
        weaken (Seen names rs (measured || not warmup) (add_setting (c, s) settings)) _
          (check_misses names rs (measured || not warmup) (add_setting (c, s) settings))
          (check_misses-Seen names rs (measured || not warmup) (add_setting (c, s) settings))
          (λ (measured', settings') (each, kept, some_measured). (
            (
              (c, s, kept c s (ground (arith, has_setting-add_setting c s c s settings)), fits),
              each,
            ),
            (λ c' s' h. kept c' s' (ground (arith, h, has_setting-add_setting c' s' c s settings))),
            still-Measured measured warmup measured' r rs warm some_measured,
          )))

-- The one setting is that of each record.
only-InScenario :
    (names : List ℕ) (c s : ℕ) (r : Record) → InSome names ((c, s) ∷ []) r → InScenario names c s r
unfolding InSome
only-InScenario names c s r (c', s', there, fits) =
    let first : c' ≡ c = ground (arith, there) in
    let second : s' ≡ s = ground (arith, there) in
    subst (λ (x : ℕ). InScenario names c x r) second
      (subst (λ (x : ℕ). InScenario names x s' r) first fits)

-- What `validate_miss_trace` accepts: records of one scenario, of which one at least is measured.
abbrev pub OneScenario : List ℕ → List Record → ℕ × ℕ → Type 0
OneScenario names records (capacity, strategy) =
    All (InScenario names capacity strategy) records × Measured records

only_setting-OneScenario :
    (names : List ℕ) (records : List Record) (measured : Bool) (settings : List (ℕ × ℕ))
    → Seen names records false [] (measured, settings)
    → Ensures (OneScenario names records) (only_setting measured settings)
unfolding only_setting Seen
only_setting-OneScenario names records measured [] h = tt
only_setting-OneScenario names records measured (s ∷ t ∷ ts) h = tt
only_setting-OneScenario names records false ((c, s) ∷ []) h = tt
only_setting-OneScenario names records true ((c, s) ∷ []) (each, kept, inl e) = absurd (cc e)
only_setting-OneScenario names records true ((c, s) ∷ []) (each, kept, inr (inl e)) = absurd (cc e)
only_setting-OneScenario names records true ((c, s) ∷ []) (each, kept, inr (inr m)) = (
  All-map (InSome names ((c, s) ∷ [])) (InScenario names c s) records (only-InScenario names c s)
      each,
  m,
)

-- When `validate_miss_trace` returns a capacity and a strategy, these are the ones that each record names; the
-- strategy is a known one; the misses of each record are its tokens, each once, and with the hits they are the
-- selected tokens, no more than 2048, which the capacity is not below; and a record is not of the warm-up.
pub validate_miss_trace-OneScenario :
    (names : List ℕ) (records : List Record)
    → Ensures (OneScenario names records) (validate_miss_trace names records)
unfolding validate_miss_trace
validate_miss_trace-OneScenario names records =
    bind-Ensures (Seen names records false []) (OneScenario names records)
      (check_misses names records false []) _ (check_misses-Seen names records false [])
      (λ (measured, settings) seen. only_setting-OneScenario names records measured settings seen)
