-- ===== src/Tests/Media.antt =====
-- Runs and instances for the media.
use ummwith_client.Prelude.{
  ℕ, zero, suc, ◌≡◌, refl, arith, true, false, some, [], ◌∷◌, List, ok, subst, All, get_elem?,
}
use ummwith_client.Prelude.Int.{pos, ◌+ℤ◌}
use ummwith_client.Prelude.Splice.{slice}
use ummwith_client.Umm.{UmmLib, Bytes}
use ummwith_client.Strategy.{locate, device_of}
use ummwith_client.Segment.Manager.{
  Manager, append, open_buffer, start_segment, roll_over, place, read_buffer,
}
use ummwith_client.Segment.Invariant.{IsValid}
use ummwith_client.VirtualMedia.Runs.{
  Item, Merging, merge_runs, grow_run, concat, IsRequest, merge_runs-IsRequest,
}
use ummwith_client.VirtualMedia.Staging.{pieces}
use ummwith_client.VirtualMedia.Media.{
  VirtualMedia, media_write, ensure_open, on_mgr, sort_items, insert_item, into_bucket, copy_out,
  check_device, mgr_of,
}
use ummwith_client.VirtualMedia.Batch.{
  read_batch, scan, requests, execute_all, execute_read, engine_read_batch, all_or_first,
  copy_staged,
}
use ummwith_client.VirtualMedia.Writes.{AllValid, Written, media_write-Written}
use ummwith_client.Tests.Segments.{willing, small, small-IsValid}

abbrev merging : Merging
merging = record { unit_size = 2; read_merge = true; max_read_bytes = some 4 }

-- Three adjacent units give a full request and one more; the last unit stands alone.
abbrev items : List Item
items = (0, 4) ∷ (3, 6) ∷ (1, 8) ∷ (2, 20) ∷ []

merge_run : merge_runs merging items ≡ ((0, 4) ∷ (3, 6) ∷ []) ∷ ((1, 8) ∷ []) ∷ ((2, 20) ∷ []) ∷ []
unfolding merge_runs grow_run
merge_run = refl

sort_run : sort_items ((0, 8) ∷ (1, 4) ∷ (2, 4) ∷ []) ≡ (1, 4) ∷ (2, 4) ∷ (0, 8) ∷ []
unfolding sort_items insert_item
sort_run = refl

merge_runs-IsRequest_example :
    (concat (merge_runs merging items) ≡ items) × All (IsRequest merging) (merge_runs merging items)
merge_runs-IsRequest_example = merge_runs-IsRequest merging items (omega arith)

abbrev stored : Bytes
stored = 10 ∷ 11 ∷ 12 ∷ 13 ∷ 14 ∷ 15 ∷ []

abbrev pub virtual_media : VirtualMedia
virtual_media = record {
  merging = merging;
  placement = record { num_devices = 2; step_idx = 3; step_layer = 5; prime = 101 };
  mgrs = small ∷ small ∷ [];
  closed = false;
}

pub all_valid : AllValid (λ d. []) virtual_media
all_valid zero m e = subst (λ x. IsValid x []) (cc) small-IsValid
all_valid (suc zero) m e = subst (λ x. IsValid x []) (cc) small-IsValid
all_valid (suc (suc d)) m e = cc

pub same_size : (d : ℕ) (m : Manager) → get_elem? virtual_media.mgrs d ≡ some m → m.unit_size ≡ 2
same_size zero m e = subst (λ (x : Manager). x.unit_size ≡ 2) {x = small} {y = m} (cc) refl
same_size (suc zero) m e = subst (λ (x : Manager). x.unit_size ≡ 2) {x = small} {y = m} (cc) refl
same_size (suc (suc d)) m e = cc

-- Token 3 of layer 2 goes to device 1.
write_run : (media_write willing (pos 2, pos 3) (7 ∷ 8 ∷ []) (virtual_media, 0)).0 ≡ ok 0
unfolding media_write ensure_open on_mgr locate device_of ◌+ℤ◌ append open_buffer start_segment
    roll_over place
write_run = refl

media_write-Written_example :
    Written willing
      (λ d. [])
      (pos 2, pos 3)
      (7 ∷ 8 ∷ [])
      (media_write willing (pos 2, pos 3) (7 ∷ 8 ∷ []) (virtual_media, 0))
media_write-Written_example =
    media_write-Written willing (λ d. []) (pos 2, pos 3) (7 ∷ 8 ∷ []) virtual_media all_valid 0 refl
      same_size

-- A library whose extents all hold `stored`.
abbrev filled : UmmLib
filled = record willing { read_into = λ d o k n. (ok (slice stored o k), n) }

-- Two units of device 0, which one read brings, and one of device 1.
abbrev buckets : List (ℕ × List Item)
buckets = (0, (2, 4) ∷ (1, 2) ∷ []) ∷ (1, (0, 0) ∷ []) ∷ []

abbrev outs : List Bytes
outs = (9 ∷ 9 ∷ 9 ∷ []) ∷ (9 ∷ 9 ∷ []) ∷ (9 ∷ 9 ∷ []) ∷ []

-- Units on the devices are read as zeros by `willing`.
read_batch_run :
    read_batch willing
      ((pos 0, 4) ∷ (pos 1, 0) ∷ (pos 0, 6) ∷ [])
      ((virtual_media, 0), (9 ∷ 9 ∷ 9 ∷ []) ∷ (9 ∷ 9 ∷ []) ∷ (9 ∷ 9 ∷ []) ∷ [])
    ≡ (ok tt, ((virtual_media, 0), (0 ∷ 0 ∷ 9 ∷ []) ∷ (0 ∷ 0 ∷ []) ∷ (0 ∷ 0 ∷ []) ∷ []))
unfolding read_batch scan requests execute_all execute_read engine_read_batch all_or_first
    copy_staged ensure_open check_device mgr_of into_bucket copy_out sort_items insert_item
    merge_runs grow_run pieces read_buffer
read_batch_run = refl
