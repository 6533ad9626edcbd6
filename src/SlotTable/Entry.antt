-- ===== src/SlotTable/Entry.antt =====
-- `pack_entry`, `entry_offset` and `entry_flags` of bmpclient/sparse_kv/slot_table.py.
use Prim.Native.Nat.{bit_and, bit_or}
use ummwith_client.Prelude.{ℕ, ◌+◌, ◌*◌, ◌/◌, ◌^◌, ◌<◌, ◌≡◌, Result, ok, value_error, ◌>>=◌, arith}
use ummwith_client.Prelude.Bits.{bit_or-shift, bit_and-ones}
use ummwith_client.Prelude.Int.{ℤ, pos, negsuc, nat_below}

abbrev pub flag_valid : ℕ
flag_valid = 0x01

abbrev offset_shift : ℕ
offset_shift = 16

abbrev pub max_offset : ℕ
max_offset = 2 ^ 48

abbrev pub max_flags : ℕ
max_flags = 2 ^ 8

-- `(offset << 16) | flags`, after the two range checks.
unfoldable pub pack_entry : ℤ → ℤ → Result ℕ
pack_entry offset flags = do
  o ← nat_below value_error offset max_offset
  f ← nat_below value_error flags max_flags
  ok (bit_or (o * 2 ^ offset_shift) f)

-- `entry >> 16`
unfoldable pub entry_offset : ℕ → ℕ
entry_offset entry = entry / 2 ^ offset_shift

-- `entry & 0xFF`
unfoldable pub entry_flags : ℕ → ℕ
entry_flags entry = bit_and entry 0xff

-- An entry that is packed from an offset below 2^48 and flags below 2^8 gives both back, and
-- Fits the 64 bits of the array's items.
pub pack_entry_roundtrip :
    (o f : ℕ)
    → o < max_offset
    → f < max_flags
    → (e : ℕ) × (pack_entry (pos o) (pos f) ≡ ok e)
      × (entry_offset e ≡ o)
      × (entry_flags e ≡ f)
      × (e < 2 ^ 64)
unfolding pack_entry entry_offset entry_flags
pack_entry_roundtrip o f ho hf = (
  o * 2 ^ 16 + f,
  ground (arith, bit_or-shift 16 o f),
  omega arith,
  omega (arith, bit_and-ones 8 (o * 2 ^ 16 + f)),
  omega arith,
)

-- Every packed entry comes from an offset and flags in range, and gives them back.
pub pack_entry_inversion :
    (offset flags : ℤ) (e : ℕ)
    → pack_entry offset flags ≡ ok e
    → (offset ≡ pos (entry_offset e)) × (flags ≡ pos (entry_flags e)) × (e < 2 ^ 64)
unfolding pack_entry entry_offset entry_flags
pack_entry_inversion (negsuc o) flags e h = cc
pack_entry_inversion (pos o) (negsuc f) e h = ground arith
pack_entry_inversion (pos o) (pos f) e h =
    ground (arith, bit_or-shift 16 o f, bit_and-ones 8 (o * 2 ^ 16 + f))
