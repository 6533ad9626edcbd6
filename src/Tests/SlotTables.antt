-- ===== src/Tests/SlotTables.antt =====
-- Runs and instances for the slot table.
use ummwith_client.Prelude.{ℕ, ◌^◌, ◌<◌, ◌≡◌, refl, arith, [], ◌∷◌, ok, err, value_error}
use ummwith_client.Prelude.Int.{pos, negsuc}
use ummwith_client.SlotTable.{
  SlotTable, init, set, invalidate, get, gather, locate, check, gather_row,
}
use ummwith_client.SlotTable.Entry.{pack_entry, entry_offset, entry_flags, pack_entry_roundtrip}
use ummwith_client.SlotTable.Grid.{cell, write}
use ummwith_client.SlotTable.Updates.{
  IsValid, SameElsewhere, init-IsValid, get_total, set_lem, Fits,
}
use ummwith_client.SlotTable.Reads.{gather_wraps}

abbrev table : SlotTable
table = record { num_layers = 2; max_tokens = 3; layers = (0 ∷ 0 ∷ 0 ∷ []) ∷ (0 ∷ 0 ∷ 0 ∷ []) ∷ [] }

program : Unit {0}
unfolding init set invalidate get gather locate check gather_row cell write pack_entry entry_offset
    entry_flags
program = tt

runs :
    (init (pos 2) (pos 3) ≡ ok table)
    × (init (pos 0) (pos 3) ≡ err value_error)
    × (pack_entry (pos 8192) (pos 1) ≡ ok 536870913)
    × (entry_offset 536870913 ≡ 8192)
    × (get table (pos 1) (pos 3) ≡ err value_error)
unfolding program
runs = (refl, refl, refl, refl, refl)

table-IsValid : IsValid table
table-IsValid = (init-IsValid (pos 2) (pos 3) runs.0).0

pack_entry_roundtrip_example :
    (e : ℕ) × (pack_entry (pos 8192) (pos 1) ≡ ok e)
    × (entry_offset e ≡ 8192)
    × (entry_flags e ≡ 1)
    × (e < 2 ^ 64)
pack_entry_roundtrip_example = pack_entry_roundtrip 8192 1 (omega arith) (omega arith)

init-IsValid_example : IsValid table × (pos 2 ≡ pos 2) × (pos 3 ≡ pos 3)
init-IsValid_example = init-IsValid (pos 2) (pos 3) runs.0

get_total_example : (e : ℕ) × (get table (pos 1) (pos 2) ≡ ok e) × Fits e
get_total_example = get_total table-IsValid 1 2 (omega arith) (omega arith)

set_lem_example :
    (s : SlotTable) × (set table (pos 1) (pos 2) (pos 4096) (pos 1) ≡ ok s)
    × IsValid s
    × (locate s (pos 1) (pos 2) ≡ ok (4096, 1))
    × SameElsewhere 1 2 table s
set_lem_example =
    set_lem table-IsValid 1 2 (omega arith) (omega arith) 4096 1 (omega arith) (omega arith)

gather_wraps_example :
    (get table (pos 1) (negsuc 0) ≡ err value_error)
    × (gather table (pos 1) (negsuc 0 ∷ []) ≡ gather table (pos 1) (pos 2 ∷ []))
gather_wraps_example = gather_wraps table-IsValid 1 (omega arith) 0 (omega arith)
