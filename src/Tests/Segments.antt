-- ===== src/Tests/Segments.antt =====
-- Runs and instances for the segment manager.
use ummwith_client.Prelude.{
  ℕ, zero, suc, subst, get_elem?, ◌*◌, ◌+◌, ◌/◌, ◌%◌, ◌<◌, ◌≡◌, refl, arith, none, some, [], ◌∷◌,
  length, replicate, ok,
}
use ummwith_client.Prelude.Int.{pos, ◌+ℤ◌}
use ummwith_client.Umm.{ChunkDescriptor, UmmLib}
use ummwith_client.Segment.Geometry.{check_segment_geometry, check_segment_geometry_lem}
use ummwith_client.Segment.Manager.{
  Manager, init, built, append, open_buffer, start_segment, roll_over, place,
}
use ummwith_client.Segment.Count.{occ, units_in}
use ummwith_client.Segment.Invariant.{IsValid}
use ummwith_client.Segment.Steps.{init_manager-IsValid}
use ummwith_client.Segment.Methods.{Appended, append-Appended}
use ummwith_client.Segment.Handover.{Safe}

-- A device that accepts every write.
abbrev pub willing : UmmLib
willing = record {
  Dev = ℕ;
  write_from = λ d o b n. (ok (length b), n + 1);
  read_into = λ d o k n. (ok (replicate k 0), n);
  alloc_on_device =
      λ size i n. (ok (record { chunk_id = n; base_gpa = 0; user_size = size }), n + 1);
  alloc = λ size n. (ok (record { chunk_id = n; base_gpa = 0; user_size = size }), n + 1);
  alloc_tiered = λ size n. (ok (record { chunk_id = n; base_gpa = 0; user_size = size }), n + 1);
  free = λ d n. (ok tt, n);
  read = λ d o k n. (ok (replicate k 0), n);
  write = λ d o b n. (ok tt, n + 1);
  deinit = λ n. (ok tt, n);
  resolver = none;
}

abbrev extent : ChunkDescriptor
extent = record { chunk_id = 1; base_gpa = 0; user_size = 16384 }

abbrev pub manager : Manager
manager = record {
  desc = extent;
  sp_bytes = 8192;
  unit_size = 4096;
  slots_per_seg = 2;
  n_seg = 2;
  free = 0 ∷ 1 ∷ [];
  refcount = pos 0 ∷ pos 0 ∷ [];
  buf = none;
  buf_seg = none;
  buf_fill = 0;
}

accepted : check_segment_geometry 8192 4096 ≡ ok tt
unfolding check_segment_geometry
accepted = refl

opened : init extent 8192 4096 ≡ ok manager
unfolding init built check_segment_geometry
opened = refl

manager-IsValid : IsValid manager []
manager-IsValid = (init_manager-IsValid extent 8192 4096 opened).0

check_segment_geometry_lem_example :
    (0 < 4096)
    × (0 < 8192 / 4096)
    × (8192 / 4096 * 4096 ≡ 8192)
    × (4096 % 4096 ≡ 0)
    × (8192 % 4096 ≡ 0)
check_segment_geometry_lem_example = check_segment_geometry_lem 8192 4096 accepted

-- Two segments of two units of two bytes.
abbrev pub small : Manager
small = record manager { sp_bytes = 4; unit_size = 2 }

pub small-IsValid : IsValid small []
unfolding occ units_in
small-IsValid = record {
  unit_pos = omega arith;
  slots_pos = omega arith;
  whole_slots = refl;
  counted = counts;
  sized = refl;
  pooled = λ seg. ground arith;
  distinct = λ off. omega arith;
  inside = λ off h. absurd (omega arith);
  buffered = refl;
}
  where
    counts : (seg : ℕ) → seg < 2 → get_elem? (pos 0 ∷ pos 0 ∷ []) seg ≡ some (pos 0)
    counts zero h = refl
    counts (suc zero) h = refl
    counts (suc (suc n)) h = absurd (omega arith)

abbrev pub holding : Manager
holding = record small {
  free = 1 ∷ [];
  refcount = pos 1 ∷ pos 0 ∷ [];
  buf = some (7 ∷ 8 ∷ 0 ∷ 0 ∷ []);
  buf_seg = some 0;
  buf_fill = 1;
}

append_run : append willing (7 ∷ 8 ∷ []) (small, 0) ≡ (ok 0, (holding, 0))
unfolding append open_buffer start_segment roll_over place ◌+ℤ◌
append_run = refl

pub holding-IsValid : IsValid holding (0 ∷ [])
holding-IsValid =
    (subst (Appended willing 2 [] (7 ∷ 8 ∷ [])) append_run
      (append-Appended willing 2 [] (7 ∷ 8 ∷ []) small 0 small-IsValid refl refl).0).0

-- To a buffer that holds a unit already.
append-Appended_example :
    Appended willing 2 (0 ∷ []) (5 ∷ 6 ∷ []) (append willing (5 ∷ 6 ∷ []) (holding, 0))
    × Safe willing (holding, 0) (append willing (5 ∷ 6 ∷ []) (holding, 0))
append-Appended_example =
    append-Appended willing 2 (0 ∷ []) (5 ∷ 6 ∷ []) holding 0 holding-IsValid refl refl
