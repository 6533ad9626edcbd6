-- ===== src/Bench/Bases.antt =====
-- The rows that a trace of bmpclient/bench/single_ssd.py is laid out on.
use ummwith_client.Prelude.{
  ℕ, ◌+◌, ◌≤◌, ◌≡◌, refl, max, inl, inr, ◌⊎◌, false, Bool-cases, Option-cases, none, some, List, [],
  ◌∷◌, if◌then◌else◌, All, arith,
}
use ummwith_client.Bench.MultiDevice.{Lengths}
use ummwith_client.Bench.Trace.{
  Record, key_eq, key_of, insert_key, update_key, grow, lengths_of, lay_out, base_of,
}

pub base_of-insert_key :
    (r l n : ℕ) (k : ℕ × ℕ) (lengths : Lengths)
    → base_of (r, l) lengths ≡ none
    → base_of k (insert_key (r, l) n lengths)
      ≡ (if key_eq (r, l) k then some n else base_of k lengths)
unfolding insert_key
base_of-insert_key r l n (s, t) [] h = refl
base_of-insert_key r l n (s, t) (((r', l'), m) ∷ rest) h =
    ground (arith, base_of-insert_key r l n (s, t) rest)

pub base_of-update_key :
    (r l n m : ℕ) (k : ℕ × ℕ) (lengths : Lengths)
    → base_of (r, l) lengths ≡ some m
    → base_of k (update_key (r, l) n lengths)
      ≡ (if key_eq (r, l) k then some n else base_of k lengths)
unfolding update_key
base_of-update_key r l n m (s, t) [] h = absurd (cc h)
base_of-update_key r l n m (s, t) (((r', l'), o) ∷ rest) h =
    ground (arith, base_of-update_key r l n m (s, t) rest)

-- A key has a length of at least `n`.
abbrev pub AtLeast : ℕ × ℕ → ℕ → Lengths → Type 0
AtLeast k n lengths = (m : ℕ) × (base_of k lengths ≡ some m) × (n ≤ m)

grow-AtLeast_self : (r l n : ℕ) (lengths : Lengths) → AtLeast (r, l) n (grow (r, l) n lengths)
unfolding grow
grow-AtLeast_self r l n lengths = elim (Option-cases (base_of (r, l) lengths)) [
  | inl e ↦ rw (e, grow) (n, ground (arith, base_of-insert_key r l n (r, l) lengths e), omega arith)
  | inr (m, e) ↦
      rw (e, grow)
        (max m n, ground (arith, base_of-update_key r l (max m n) m (r, l) lengths e), omega arith)
]

grow-AtLeast :
    (r l n : ℕ) (s t j : ℕ) (lengths : Lengths)
    → AtLeast (s, t) j lengths
    → AtLeast (s, t) j (grow (r, l) n lengths)
unfolding grow
grow-AtLeast r l n s t j lengths (o, h, le) = elim (Option-cases (base_of (r, l) lengths)) [
  | inl e ↦ rw (e, grow) (o, ground (arith, base_of-insert_key r l n (s, t) lengths e, h), le)
  | inr (m, e) ↦
      let stored = base_of-update_key r l (max m n) m (s, t) lengths e in
      elim (Bool-cases (key_eq (r, l) (s, t))) [
        | inl q ↦
            let first : r ≡ s = ground (arith, q) in
            let second : l ≡ t = ground (arith, q) in
            let same : base_of (r, l) lengths ≡ base_of (s, t) lengths =
              (λ i. base_of (first i, second i) lengths) in
            rw (e, grow) (max m n, ground (arith, stored, q), ground (arith, same, e, h, le))
        | inr q ↦ rw (e, grow) (o, ground (arith, stored, q, h), le)
      ]
]

lengths_of-AtLeast :
    (rs : List Record) (s t j : ℕ) (lengths : Lengths)
    → AtLeast (s, t) j lengths
    → AtLeast (s, t) j (lengths_of rs lengths)
unfolding lengths_of
lengths_of-AtLeast [] s t j lengths h = h
lengths_of-AtLeast (r ∷ rs) s t j lengths h =
    lengths_of-AtLeast rs s t j (grow (key_of r) r.context_length lengths)
      (grow-AtLeast r.request_id r.layer_id r.context_length s t j lengths h)

pub lengths_of-All :
    (rs : List Record) (lengths : Lengths)
    → All (λ (r : Record). AtLeast (key_of r) r.context_length (lengths_of rs lengths)) rs
unfolding lengths_of
lengths_of-All [] lengths = tt
lengths_of-All (r ∷ rs) lengths =
    let grown = grow (key_of r) r.context_length lengths in
    (
      lengths_of-AtLeast rs r.request_id r.layer_id r.context_length grown
          (grow-AtLeast_self r.request_id r.layer_id r.context_length lengths),
      lengths_of-All rs grown,
    )

-- A key with a length has a base, above which its rows lie.
pub lay_out-base :
    (start s t n : ℕ) (lengths : Lengths)
    → base_of (s, t) lengths ≡ some n
    → (b : ℕ) × (base_of (s, t) (lay_out start lengths).0 ≡ some b)
      × (start ≤ b)
      × (b + n ≤ (lay_out start lengths).1)
unfolding lay_out
lay_out-base start s t n [] h = absurd (cc h)
lay_out-base start s t n (((r, l), m) ∷ rest) h = elim (Bool-cases (key_eq (r, l) (s, t))) [
  | inl q ↦
      (start, ground (arith, q), omega arith, ground (arith, q, h, lay_out-le (start + m) rest))
  | inr q ↦
      let (b, found, above, below) = lay_out-base (start + m) s t n rest (ground (arith, q, h)) in
      (b, ground (arith, q, found), omega (arith, above), below)
]
  where
    lay_out-le : (start : ℕ) (lengths : Lengths) → start ≤ (lay_out start lengths).1
    lay_out-le start [] = omega arith
    lay_out-le start (((r, l), m) ∷ rest) = omega (arith, lay_out-le (start + m) rest)

-- The rows of two keys lie apart.
abbrev pub Apart : ℕ → ℕ → ℕ → ℕ → Type 0
Apart b n b' n' = (b + n ≤ b') ⊎ (b' + n' ≤ b)

pub lay_out-Apart :
    (start s t n s' t' n' b b' : ℕ) (lengths : Lengths)
    → key_eq (s, t) (s', t') ≡ false
    → base_of (s, t) lengths ≡ some n
    → base_of (s', t') lengths ≡ some n'
    → base_of (s, t) (lay_out start lengths).0 ≡ some b
    → base_of (s', t') (lay_out start lengths).0 ≡ some b'
    → Apart b n b' n'
unfolding lay_out
lay_out-Apart start s t n s' t' n' b b' [] d h h' k k' = absurd (cc h)
lay_out-Apart start s t n s' t' n' b b' (((r, l), m) ∷ rest) d h h' k k' =
    elim (Bool-cases (key_eq (r, l) (s, t))) [
      | inl q ↦
          let other : key_eq (r, l) (s', t') ≡ false = ground (arith, q, d) in
          let (c, found, above, below) =
            lay_out-base (start + m) s' t' n' rest (ground (arith, other, h')) in
          inl (ground (arith, q, other, h, k, k', found, above))
      | inr q ↦ elim (Bool-cases (key_eq (r, l) (s', t'))) [
        | inl q' ↦
            let (c, found, above, below) =
              lay_out-base (start + m) s t n rest (ground (arith, q, h)) in
            inr (ground (arith, q, q', h', k, k', found, above))
        | inr q' ↦
            lay_out-Apart (start + m) s t n s' t' n' b b' rest d (ground (arith, q, h))
              (ground (arith, q', h')) (ground (arith, q, k)) (ground (arith, q', k'))
      ]
    ]
