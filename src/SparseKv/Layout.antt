-- ===== src/SparseKv/Layout.antt =====
-- The descriptor buffer of bmpclient/sparse_kv/store.py: what `struct` packs by the formats
-- "<IIQ" and "<IIQQQ", little endian and without padding.
use ummwith_client.Prelude.{
  ℕ, zero, suc, ◌+◌, ◌*◌, ◌/◌, ◌%◌, ◌<◌, ◌≡◌, refl, ap, List, [], ◌∷◌, ◌++◌, map, arith, leb,
  length, length-append, take, drop, Result, ok, err, struct_error, raise_if, ◌>>=◌, ◌>>◌, Bool,
  true, false,
}
use ummwith_client.Umm.{Bytes}

-- A width in bytes, and the value.
abbrev pub Field : Type 0
Field = ℕ × ℕ

-- 256 to the power of the width.
abbrev pub word_limit : ℕ → ℕ
word_limit zero = 1
word_limit (suc w) = 256 * word_limit w

unfoldable pub to_bytes : ℕ → ℕ → Bytes
to_bytes zero n = []
to_bytes (suc w) n = n % 256 ∷ to_bytes w (n / 256)

unfoldable pub from_bytes : Bytes → ℕ
from_bytes [] = 0
from_bytes (b ∷ bs) = b + 256 * from_bytes bs

-- `Struct.pack`
unfoldable pub pack : List Field → Result Bytes
unfolding to_bytes
pack [] = ok []
pack ((w, n) ∷ fields) = do
  raise_if (leb (word_limit w) n) struct_error
  rest ← pack fields
  ok (to_bytes w n ++ rest)

-- `Struct.unpack`, for the widths.
unfoldable pub unpack : List ℕ → Bytes → List ℕ
unfolding from_bytes
unpack [] bytes = []
unpack (w ∷ ws) bytes = from_bytes (take w bytes) ∷ unpack ws (drop w bytes)

abbrev pub entry_size : ℕ
entry_size = 32

abbrev pub header_size : ℕ
header_size = 16

abbrev pub entry_widths : List ℕ
entry_widths = 4 ∷ 4 ∷ 8 ∷ 8 ∷ 8 ∷ []

-- `ENTRY_STRUCT`
abbrev pub entry_fields : ℕ → ℕ → ℕ → ℕ → ℕ → List Field
entry_fields ssd_id flags lba_offset length dst_offset =
    (4, ssd_id) ∷ (4, flags) ∷ (8, lba_offset) ∷ (8, length) ∷ (8, dst_offset) ∷ []

-- `HEADER_STRUCT`
abbrev pub header_fields : ℕ → ℕ → List Field
header_fields count layer_id = (4, count) ∷ (4, layer_id) ∷ (8, 0) ∷ []

length-to_bytes : (w n : ℕ) → length (to_bytes w n) ≡ w
unfolding to_bytes
length-to_bytes zero n = refl
length-to_bytes (suc w) n = ap suc (length-to_bytes w (n / 256))

from_bytes-to_bytes : (w n : ℕ) → n < word_limit w → from_bytes (to_bytes w n) ≡ n
unfolding from_bytes to_bytes
from_bytes-to_bytes zero n h = omega arith
from_bytes-to_bytes (suc w) n h = omega (arith, from_bytes-to_bytes w (n / 256) (omega arith))

take-append : (w : ℕ) (xs ys : Bytes) → length xs ≡ w → take w (xs ++ ys) ≡ xs
take-append zero [] ys e = refl
take-append zero (x ∷ xs) ys e = absurd (omega arith)
take-append (suc w) [] ys e = absurd (omega arith)
take-append (suc w) (x ∷ xs) ys e = ap (λ l. x ∷ l) (take-append w xs ys (omega arith))

drop-append : (w : ℕ) (xs ys : Bytes) → length xs ≡ w → drop w (xs ++ ys) ≡ ys
drop-append zero [] ys e = refl
drop-append zero (x ∷ xs) ys e = absurd (omega arith)
drop-append (suc w) [] ys e = absurd (omega arith)
drop-append (suc w) (x ∷ xs) ys e = drop-append w xs ys (omega arith)

abbrev pub total_width : List Field → ℕ
total_width [] = 0
total_width ((w, n) ∷ fields) = w + total_width fields

pack_inversion :
    (w n : ℕ) (fields : List Field) (bytes : Bytes)
    → pack ((w, n) ∷ fields) ≡ ok bytes
    → (rest : Bytes) × (pack fields ≡ ok rest) × (n < word_limit w) × (bytes ≡ to_bytes w n ++ rest)
unfolding pack
pack_inversion w n fields bytes e = by_parts (leb (word_limit w) n) (pack fields) refl refl e
  where
    by_parts :
        (large : Bool) (r : Result Bytes)
        → leb (word_limit w) n ≡ large
        → pack fields ≡ r
        → (raise_if large struct_error >> (r >>= λ rest. ok (to_bytes w n ++ rest))) ≡ ok bytes
        → (rest : Bytes) × (pack fields ≡ ok rest)
          × (n < word_limit w)
          × (bytes ≡ to_bytes w n ++ rest)
    by_parts true r f g h = cc
    by_parts false (err why) f g h = cc
    by_parts false (ok rest) f g h = (rest, g, ground arith, ground arith)

-- What `pack` accepts is as long as the widths say, and `unpack` gives the values back.
pub unpack-pack :
    (fields : List Field) (bytes : Bytes)
    → pack fields ≡ ok bytes
    → (length bytes ≡ total_width fields)
      × (unpack (map (λ (f : Field). f.0) fields) bytes ≡ map (λ (f : Field). f.1) fields)
unfolding unpack
unpack-pack [] bytes e = unfold pack in ground arith
unpack-pack ((w, n) ∷ fields) bytes e =
    let (rest, packed, small, whole) = pack_inversion w n fields bytes e in
    let (size, back) = unpack-pack fields rest packed in
    rw whole (
      omega (arith, length-append (to_bytes w n) rest, length-to_bytes w n),
      rw
          (
            take-append w (to_bytes w n) rest (length-to_bytes w n),
            drop-append w (to_bytes w n) rest (length-to_bytes w n),
            from_bytes-to_bytes w n small,
            back,
          )
          refl,
    )
