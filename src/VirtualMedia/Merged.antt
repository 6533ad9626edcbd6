-- ===== src/VirtualMedia/Merged.antt =====
-- The reads of `read_batch` of bmpclient/virtual_media.py from the devices: the requests for the merged runs,
-- the staging buffers that they fill, and what is copied out of them.
use ummwith_client.Prelude.{
  ℕ, ◌+◌, ◌≤◌, ◌<◌, ◌≡◌, some, List, [], ◌∷◌, ◌++◌, length, get_elem?, All, Result, ok,
}
use ummwith_client.Prelude.Splice.{slice}
use ummwith_client.Umm.{Bytes, ChunkDescriptor, UmmLib}
use ummwith_client.Segment.Manager.{Manager}
use ummwith_client.VirtualMedia.Runs.{Item, Merging, Fits}
use ummwith_client.VirtualMedia.Staging.{read_each}
use ummwith_client.VirtualMedia.Media.{VirtualMedia, sort_items, copy_out}
use ummwith_client.VirtualMedia.Batch.{Request, all_or_first, copy_staged, execute_all}
use ummwith_client.VirtualMedia.Spans.{Inside}

-- What reads of the single units give for the buckets, each in the order of the offsets.
abbrev pub read_buckets : ℕ → (ℕ → Bytes) → List (ℕ × List Item) → List (ℕ × Bytes)
read_buckets unit stored [] = []
read_buckets unit stored ((d, group) ∷ buckets) =
    read_each unit (stored d) (sort_items group) ++ read_buckets unit stored buckets

module _ (lib : UmmLib) (c : Merging) (dev : lib.Dev) where
  -- The reads of an extent, within its bytes, give the bytes that are stored there.
  abbrev pub Reads : ChunkDescriptor → Bytes → Type 0
  Reads desc stored =
      (o n : ℕ) → o + n ≤ length stored → lib.read_into desc o n dev ≡ (ok (slice stored o n), dev)

  -- The requests all succeed, and `ps` is copied out of their buffers.
  abbrev Serves : List Request → List (ℕ × Bytes) → Type 0
  Serves rs ps =
      (outcomes : List (Result Bytes)) × (staged : List Bytes) × (execute_all lib rs dev
        ≡ (outcomes, dev))
      × (all_or_first outcomes ≡ ok staged)
      × ((outs : List Bytes) → copy_staged c.unit_size rs staged outs ≡ copy_out ps outs)

  module _ (positive : 0 < c.unit_size) where
    module _ (v : VirtualMedia) (stored : ℕ → Bytes)
        (fits : Fits c.max_read_bytes c.unit_size) where
      -- The device of the bucket has a manager, whose extent holds the units of the bucket.
      abbrev pub Ready : ℕ × List Item → Type 0
      Ready (d, group) =
          (m : Manager) × (get_elem? v.mgrs d ≡ some m)
          × Reads m.desc (stored d)
          × All (Inside c.unit_size (length (stored d))) group
