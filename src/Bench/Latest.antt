-- ===== src/Bench/Latest.antt =====
-- The last step and the longest context in the books of `geometry`, bmpclient/bench/layout_replay.py, after
-- a record.
use ummwith_client.Prelude.{
  ℕ, ◌≡◌, ap, sym, ◌∙◌, max, inl, inr, leb, not, ◌||◌, ◌==◌, ◌&&◌, true, Bool-cases, none, some,
  Option-cases, List, if◌then◌else◌, arith,
}
use ummwith_client.Prelude.Dict.{dict_get, dict_set, dict_get-dict_set}
use ummwith_client.Bench.MultiDevice.{Lengths}
use ummwith_client.Bench.Bases.{base_of-insert_key, base_of-update_key}
use ummwith_client.Bench.Trace.{key_eq, base_of, insert_key, update_key, grow}
use ummwith_client.Bench.Geometry.{or_zero}

unfoldable pub length_of : ℕ → ℕ → Lengths → ℕ
length_of r l lengths = or_zero (base_of (r, l) lengths)

same_key :
    (r l s t : ℕ) (lengths : Lengths)
    → key_eq (r, l) (s, t) ≡ true
    → base_of (r, l) lengths ≡ base_of (s, t) lengths
same_key r l s t lengths q =
    let first : r ≡ s = ground (arith, q) in
    let second : l ≡ t = ground (arith, q) in λ i. base_of (first i, second i) lengths

length_of-grow :
    (r l n s t : ℕ) (lengths : Lengths)
    → length_of s t (grow (r, l) n lengths)
      ≡ (if key_eq (r, l) (s, t) then max (length_of s t lengths) n else length_of s t lengths)
unfolding grow length_of
length_of-grow r l n s t lengths = elim (Option-cases (base_of (r, l) lengths)) [
  | inl e ↦
      let stored = base_of-insert_key r l n (s, t) lengths e in
      elim (Bool-cases (key_eq (r, l) (s, t))) [
        | inl q ↦
            let there : base_of (s, t) (insert_key (r, l) n lengths) ≡ some n =
              ground (arith, stored, q) in
            let absent : base_of (s, t) lengths ≡ none = sym (same_key r l s t lengths q) ∙ e in
            rw (e, q, absent, grow) (ap or_zero there ∙ omega arith)
        | inr q ↦
            let there : base_of (s, t) (insert_key (r, l) n lengths) ≡ base_of (s, t) lengths =
              ground (arith, stored, q) in
            rw (e, q, grow) (ap or_zero there)
      ]
  | inr (m, e) ↦
      let stored = base_of-update_key r l (max m n) m (s, t) lengths e in
      elim (Bool-cases (key_eq (r, l) (s, t))) [
        | inl q ↦
            let there : base_of (s, t) (update_key (r, l) (max m n) lengths) ≡ some (max m n) =
              ground (arith, stored, q) in
            let here : base_of (s, t) lengths ≡ some m = sym (same_key r l s t lengths q) ∙ e in
            rw (e, q, here, grow) (ap or_zero there)
        | inr q ↦
            let there : base_of (s, t) (update_key (r, l) (max m n) lengths)
                ≡ base_of (s, t) lengths =
              ground (arith, stored, q) in
            rw (e, q, grow) (ap or_zero there)
      ]
]

steps_after :
    (r s step : ℕ) (steps : List (ℕ × ℕ))
    → or_zero (dict_get s (dict_set r step steps))
      ≡ (if r == s then step else or_zero (dict_get s steps))
steps_after r s step steps =
    let stored = dict_get-dict_set r s step steps in
    elim (Bool-cases (r == s)) [
      | inl q ↦
          let there : dict_get s (dict_set r step steps) ≡ some step = ground (arith, stored, q) in
          rw q (ap or_zero there)
      | inr q ↦
          let there : dict_get s (dict_set r step steps) ≡ dict_get s steps =
            ground (arith, stored, q) in
          rw q (ap or_zero there)
    ]

pub step-next :
    (r s step later : ℕ) (steps : List (ℕ × ℕ))
    → leb (or_zero (dict_get r steps)) step ≡ true
    → leb (or_zero (dict_get s (dict_set r step steps))) later
      ≡ (leb (or_zero (dict_get s steps)) later && (not (r == s) || leb step later))
step-next r s step later steps h =
    let after = steps_after r s step steps in
    elim (Bool-cases (r == s)) [
      | inl q ↦
          let same : or_zero (dict_get r steps) ≡ or_zero (dict_get s steps) =
            ap (λ (x : ℕ). or_zero (dict_get x steps)) (ground (arith, q)) in
          rw (after, q) (ground (arith, h, same))
      | inr q ↦ rw (after, q) (ground arith)
    ]

pub length-next :
    (r l s t n later : ℕ) (lengths : Lengths)
    → leb (length_of s t (grow (r, l) n lengths)) later
      ≡ (leb (length_of s t lengths) later && (not (key_eq (r, l) (s, t)) || leb n later))
length-next r l s t n later lengths =
    let after = length_of-grow r l n s t lengths in
    elim (Bool-cases (key_eq (r, l) (s, t))) [
      | inl q ↦ rw (after, q) (ground arith)
      | inr q ↦ rw (after, q) (ground arith)
    ]
