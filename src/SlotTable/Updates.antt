-- ===== src/SlotTable/Updates.antt =====
-- The table keeps its shape, and `set` and `invalidate` change the one entry that they name.
use ummwith_client.Prelude.{
  ℕ, ◌^◌, ◌<◌, ◌≡◌, ◌≢◌, ◌⊎◌, inl, inr, refl, arith, length, replicate, length-replicate,
  All-replicate, All, some, Bool-cases, ltb, ◌&&◌, ok, err, value_error,
}
use ummwith_client.Prelude.Int.{ℤ, pos, negsuc}
use ummwith_client.SlotTable.Entry.{pack_entry, max_offset, max_flags, pack_entry_roundtrip}
use ummwith_client.SlotTable.Grid.{
  cell, write, IsRow, write-IsRow, cell-some, length-write, cell-write_self, cell-write_ne,
}
use ummwith_client.SlotTable.{SlotTable, init, set, invalidate, get, locate}

-- Entries fit the 64 bits of `array('Q')`.
abbrev pub Fits : ℕ → Type 0
Fits e = e < 2 ^ 64

-- One array of `max_tokens` entries for each layer, each entry in 64 bits.
pub record IsValid (s : SlotTable) : Type 0 where
  pub height : length s.layers ≡ s.num_layers
  pub rows : All (IsRow s.max_tokens Fits) s.layers

zeros-IsRow : (m : ℕ) → IsRow m Fits (replicate m 0)
zeros-IsRow m = (length-replicate m 0, All-replicate Fits m 0 (omega arith))

-- A table that the constructor builds is valid, of the asked size.
pub init-IsValid :
    (n m : ℤ) {s : SlotTable}
    → init n m ≡ ok s
    → IsValid s × (n ≡ pos s.num_layers) × (m ≡ pos s.max_tokens)
unfolding init
init-IsValid (negsuc n) m h = cc
init-IsValid (pos n) (negsuc m) h = ground arith
init-IsValid (pos n) (pos m) h = ground (
  arith,
  length-replicate n (replicate {A = ℕ} m 0),
  All-replicate (IsRow m Fits) n (replicate {A = ℕ} m 0) (zeros-IsRow m),
)

module _ {s : SlotTable} (v : IsValid s) where
  cell_of :
      (l t : ℕ)
      → l < s.num_layers
      → t < s.max_tokens
      → (e : ℕ) × (cell s.layers l t ≡ some e) × Fits e
  cell_of l t p q = cell-some s.max_tokens Fits s.layers l t v.rows (omega (arith, v.height)) q

  write-IsValid : (l t e : ℕ) → Fits e → IsValid (record s { layers = write s.layers l t e })
  write-IsValid l t e small = record {
    height = omega (arith, v.height, length-write s.layers l t e);
    rows = write-IsRow s.max_tokens Fits s.layers l t e v.rows small;
  }

  -- Every entry in range can be read, and Fits 64 bits; every other index is refused.
  pub get_total :
      (l t : ℕ)
      → l < s.num_layers
      → t < s.max_tokens
      → (e : ℕ) × (get s (pos l) (pos t) ≡ ok e) × Fits e
  unfolding get
  get_total l t p q = let (e, found, small) = cell_of l t p q in (e, ground arith, small)

-- `s'` reads as `s` at every index pair but (l, t), the refused ones included.
abbrev pub SameElsewhere : ℕ → ℕ → SlotTable → SlotTable → Type 0
SameElsewhere l t s s' =
    (layer token : ℤ) → (layer ≢ pos l) ⊎ (token ≢ pos t) → get s' layer token ≡ get s layer token

write-SameElsewhere :
    (s : SlotTable) (l t e : ℕ) → SameElsewhere l t s (record s { layers = write s.layers l t e })
unfolding get
write-SameElsewhere s l t e (pos k) (pos j) h =
    ground (arith, cell-write_ne s.layers l t k j e (numbers h))
  where
    numbers : (pos k ≢ pos l) ⊎ (pos j ≢ pos t) → (l ≢ k) ⊎ (t ≢ j)
    numbers (inl n) = inl (λ p. n (rw p))
    numbers (inr n) = inr (λ p. n (rw p))
write-SameElsewhere s l t e (pos k) (negsuc j) h = ground arith
write-SameElsewhere s l t e (negsuc k) token h = refl

module _ {s : SlotTable} (v : IsValid s) (l t : ℕ) (hl : l < s.num_layers)
    (ht : t < s.max_tokens) where
  -- What a write of `e` at (l, t) does: the entry reads `e`, and nothing else changes.
  written : (e : ℕ) → get (record s { layers = write s.layers l t e }) (pos l) (pos t) ≡ ok e
  unfolding get
  written e =
      let (old, found, small) = cell_of v l t hl ht in
      ground (arith, cell-write_self s.layers l t e old found)

  -- With all four arguments in range, `set` succeeds: `locate` then returns the offset and the
  -- flags, every other pair of indices reads as before, and the table stays valid.
  pub set_lem :
      (o f : ℕ)
      → o < max_offset
      → f < max_flags
      → (s' : SlotTable) × (set s (pos l) (pos t) (pos o) (pos f) ≡ ok s')
        × IsValid s'
        × (locate s' (pos l) (pos t) ≡ ok (o, f))
        × SameElsewhere l t s s'
  unfolding set locate
  set_lem o f ho hf =
      let (e, packed, offset, flags, small) = pack_entry_roundtrip o f ho hf in
      (
        record s { layers = write s.layers l t e },
        ground (arith),
        write-IsValid v l t e small,
        rw (written e, offset, flags),
        write-SameElsewhere s l t e,
      )

  -- `invalidate` makes the entry 0, which has no flag set, and changes no other.
  pub invalidate_lem :
      (s' : SlotTable) × (invalidate s (pos l) (pos t) ≡ ok s')
      × IsValid s'
      × (get s' (pos l) (pos t) ≡ ok 0)
      × SameElsewhere l t s s'
  unfolding invalidate
  invalidate_lem = (
    record s { layers = write s.layers l t 0 },
    ground arith,
    write-IsValid v l t 0 (omega arith),
    written 0,
    write-SameElsewhere s l t 0,
  )

-- `set` succeeds only on arguments in range, and refuses the others by `ValueError`.
pub set_refuses :
    (s : SlotTable) (layer token offset flags : ℤ)
    → (set s layer token offset flags ≡ err value_error)
      ⊎ ((l t o f : ℕ) × (layer ≡ pos l)
          × (token ≡ pos t)
          × (offset ≡ pos o)
          × (flags ≡ pos f)
          × (l < s.num_layers)
          × (t < s.max_tokens)
          × (o < max_offset)
          × (f < max_flags))
unfolding set pack_entry
set_refuses s (negsuc l) token offset flags = inl refl
set_refuses s (pos l) (negsuc t) offset flags = inl (ground arith)
set_refuses s (pos l) (pos t) (negsuc o) flags = inl (ground arith)
set_refuses s (pos l) (pos t) (pos o) (negsuc f) = inl (ground arith)
set_refuses s (pos l) (pos t) (pos o) (pos f) =
    elim (Bool-cases
      (ltb l s.num_layers && ltb t s.max_tokens && ltb o max_offset && ltb f max_flags)) [
        | inl yes_all ↦ inr (
          l,
          t,
          o,
          f,
          refl,
          refl,
          refl,
          refl,
          ground arith,
          ground arith,
          ground arith,
          ground arith,
        )
        | inr some_not ↦ inl (ground arith)
      ]
