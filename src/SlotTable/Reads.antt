-- ===== src/SlotTable/Reads.antt =====
-- `gather` against `get`, the read that checks both indices.
use ummwith_client.Prelude.{
  ℕ, suc, ◌-◌, ◌<◌, ◌≡◌, refl, arith, List, [], ◌∷◌, map, some, length, get_elem?, All,
  All-get_elem?, get_elem?-some, Result, ok, err, value_error, ◌>>=◌,
}
use ummwith_client.Prelude.Int.{ℤ, pos, negsuc}
use ummwith_client.SlotTable.Grid.{cell, IsRow}
use ummwith_client.SlotTable.{SlotTable, get, gather, gather_row}
use ummwith_client.SlotTable.Updates.{IsValid, Fits}

-- A `get` for each token in turn.
unfoldable pub get_each : SlotTable → ℤ → List ℤ → Result (List ℕ)
get_each s layer [] = ok []
get_each s layer (t ∷ ts) = do e ← get s layer t; es ← get_each s layer ts; ok (e ∷ es)

module _ {s : SlotTable} (v : IsValid s) (l : ℕ) (hl : l < s.num_layers) where
  gather_row-get_each :
      (row : List ℕ) (ts : List ℕ)
      → get_elem? s.layers l ≡ some row
      → All (λ t. t < s.max_tokens) ts
      → gather_row row (map pos ts) ≡ get_each s (pos l) (map pos ts)
  unfolding gather_row get_each get cell
  gather_row-get_each row [] e h = refl
  gather_row-get_each row (t ∷ ts) e h = ground (arith, gather_row-get_each row ts e h.1)

  -- On tokens in range, `gather` returns what a `get` of each token returns.
  pub gather-get_each :
      (ts : List ℕ)
      → All (λ t. t < s.max_tokens) ts
      → gather s (pos l) (map pos ts) ≡ get_each s (pos l) (map pos ts)
  unfolding gather
  gather-get_each ts h =
      let (row, e) = get_elem?-some s.layers l (omega (arith, v.height)) in
      ground (arith, gather_row-get_each row ts e h)

  -- A negative token -(k + 1), which `get` refuses, is read by `gather` as the token that many
  -- places from the end of the layer.
  pub gather_wraps :
      (k : ℕ)
      → k < s.max_tokens
      → (get s (pos l) (negsuc k) ≡ err value_error)
        × (gather s (pos l) (negsuc k ∷ []) ≡ gather s (pos l) (pos (s.max_tokens - suc k) ∷ []))
  unfolding get gather gather_row
  gather_wraps k h =
      let (row, e) = get_elem?-some s.layers l (omega (arith, v.height)) in
      let wide : length row ≡ s.max_tokens =
        (All-get_elem? (IsRow s.max_tokens Fits) s.layers l row v.rows e).0 in
      (ground arith, ground arith)
