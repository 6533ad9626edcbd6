-- ===== src/Bench/Checks.antt =====
-- What a record of a trace of bmpclient/bench/single_ssd.py has passed.
use ummwith_client.Prelude.{
  ℕ, zero, suc, ◌≤◌, ◌<◌, ◌≡◌, refl, inl, inr, ltb, leb, ◌||◌, Bool-cases, Option, none, some, List,
  [], ◌∷◌, length, All, arith, Result, ok, err, value_error,
}
use ummwith_client.Prelude.Int.{pos, negsuc}
use ummwith_client.Prelude.Ensures.{Ensures, bind-Ensures, unless_raised, anything, weaken}
use ummwith_client.Bench.Trace.{
  Scalar, truth, int, text, other, Json, scalar, array, Fields, Line, blank, malformed, not_object,
  object, Record, integer, check_tokens, tokens_field, integer_field, name_field, read_record,
  on_line, read_lines,
}

-- A record that passed: at least a token of context, the tokens below it, and not too many.
abbrev pub WellFormed : ℕ → ℕ → Record → Type 0
WellFormed minimum max_topk r =
    (0 < r.request_id)
    × (1 ≤ r.context_length)
    × (minimum ≤ length r.indices)
    × (length r.indices ≤ max_topk)
    × All (λ (t : ℕ). t < r.context_length) r.indices

integer-le : (s : Scalar) (minimum : ℕ) → Ensures (λ (n : ℕ). minimum ≤ n) (integer s minimum)
unfolding integer
integer-le (truth b) m = tt
integer-le (int (pos n)) m = elim (Bool-cases (ltb n m)) [
  | inl e ↦ rw e tt
  | inr e ↦ rw e (ground (arith, e))
]
integer-le (int (negsuc n)) m = tt
integer-le (text t) m = tt
integer-le other m = tt

integer_field-le :
    (f : Option Json) (minimum : ℕ) → Ensures (λ (n : ℕ). minimum ≤ n) (integer_field f minimum)
unfolding integer_field
integer_field-le none m = tt
integer_field-le (some (scalar s)) m = integer-le s m
integer_field-le (some (array xs)) m = tt

name_field-pos : (f : Option Json) → Ensures (λ (n : ℕ). 0 < n) (name_field f)
unfolding name_field
name_field-pos none = tt
name_field-pos (some (array xs)) = tt
name_field-pos (some (scalar (text zero))) = tt
name_field-pos (some (scalar (text (suc t)))) = omega arith
name_field-pos (some (scalar (truth b))) = tt
name_field-pos (some (scalar (int n))) = tt
name_field-pos (some (scalar other)) = tt

check_tokens-All :
    (ctx : ℕ) (xs : List Scalar)
    → Ensures
        (λ (tokens : List ℕ). (length tokens ≡ length xs) × All (λ (t : ℕ). t < ctx) tokens)
        (check_tokens ctx xs)
unfolding check_tokens
check_tokens-All ctx [] = (refl, tt)
check_tokens-All ctx (x ∷ xs) =
    bind-Ensures (λ (n : ℕ). Unit) _ (integer x 0) _ (anything (integer x 0))
      (λ token _. unless_raised _ (leb ctx token) value_error _ (λ below.
        bind-Ensures
          (λ (tokens : List ℕ). (length tokens ≡ length xs) × All (λ (t : ℕ). t < ctx) tokens) _
          (check_tokens ctx xs) _ (check_tokens-All ctx xs)
          (λ tokens (same, all). (omega (arith, same), (ground (arith, below), all)))))

tokens_field-All :
    (ctx minimum max_topk : ℕ) (f : Option Json)
    → Ensures
        (λ (tokens : List ℕ).
          (minimum ≤ length tokens) × (length tokens ≤ max_topk) × All (λ (t : ℕ). t < ctx) tokens)
        (tokens_field ctx minimum max_topk f)
unfolding tokens_field
tokens_field-All ctx minimum max_topk none = tt
tokens_field-All ctx minimum max_topk (some (scalar s)) = tt
tokens_field-All ctx minimum max_topk (some (array xs)) =
    unless_raised _ (ltb (length xs) minimum || ltb max_topk (length xs)) value_error _ (λ fits.
      weaken (λ (tokens : List ℕ). (length tokens ≡ length xs) × All (λ (t : ℕ). t < ctx) tokens) _
        (check_tokens ctx xs) (check_tokens-All ctx xs)
        (λ tokens (same, all). (ground (arith, fits, same), ground (arith, fits, same), all)))

read_record-WellFormed :
    (minimum max_topk : ℕ) (f : Fields)
    → Ensures (WellFormed minimum max_topk) (read_record minimum max_topk f)
unfolding read_record
read_record-WellFormed minimum max_topk f =
    bind-Ensures _ _ (name_field f.request_id) _ (name_field-pos f.request_id) (λ request named.
      bind-Ensures _ _ (integer_field f.step_id 0) _ (integer_field-le f.step_id 0) (λ step _.
        bind-Ensures _ _ (integer_field f.layer_id 0) _ (integer_field-le f.layer_id 0) (λ layer _.
          bind-Ensures _ _ (integer_field f.context_length 1) _
            (integer_field-le f.context_length 1)
            (λ ctx some_context.
              bind-Ensures _ _ (tokens_field ctx minimum max_topk f.topk_token_indices) _
                (tokens_field-All ctx minimum max_topk f.topk_token_indices)
                (λ tokens (enough, few, all). (named, some_context, enough, few, all))))))

on_line-Ensures : {A : Type 0} (P : A → Type 0) (r : Result A) → Ensures P r → Ensures P (on_line r)
on_line-Ensures P (ok a) h = h
on_line-Ensures P (err e) h = tt

pub read_lines-WellFormed :
    (minimum max_topk : ℕ) (lines : List Line)
    → Ensures (All (WellFormed minimum max_topk)) (read_lines minimum max_topk lines)
unfolding read_lines
read_lines-WellFormed minimum max_topk [] = tt
read_lines-WellFormed minimum max_topk (blank ∷ lines) =
    read_lines-WellFormed minimum max_topk lines
read_lines-WellFormed minimum max_topk (malformed ∷ lines) = tt
read_lines-WellFormed minimum max_topk (not_object ∷ lines) = tt
read_lines-WellFormed minimum max_topk (object f ∷ lines) =
    bind-Ensures (WellFormed minimum max_topk) _ (on_line (read_record minimum max_topk f)) _
      (on_line-Ensures (WellFormed minimum max_topk) (read_record minimum max_topk f)
        (read_record-WellFormed minimum max_topk f))
      (λ r good.
        bind-Ensures (All (WellFormed minimum max_topk)) _ (read_lines minimum max_topk lines) _
          (read_lines-WellFormed minimum max_topk lines) (λ rs all. (good, all)))
