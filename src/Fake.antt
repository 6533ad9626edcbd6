-- ===== src/Fake.antt =====
-- `_FakeCLib` of bmpclient/testing.py: libumm in memory, each C function one step. The delays and the
-- pointers that it records for the tests are left out.
use ummwith_client.Prelude.{
  ℕ, zero, suc, ◌+◌, ◌-◌, ◌*◌, max, ltb, leb, ◌==◌, Bool, true, false, not, Option, none, some,
  List, [], ◌∷◌, ◌++◌, ◌||◌, if◌then◌else◌, length, replicate, Result, ok, err, Error, index_error,
}
use ummwith_client.Prelude.Int.{ℤ, pos}
use ummwith_client.Prelude.Splice.{splice, slice}
use ummwith_client.Prelude.Dict.{dict_get, dict_set, dict_del}
use ummwith_client.Umm.{Bytes, ChunkDescriptor, UmmLib}
use ummwith_client.Umm.Clib.{CLib, Call, StorageResource, StorageTopology, umm_tier_ssd, bindings}
pub mod Memory
pub mod Cells
pub mod Refinement
pub mod Calls

pub record Fake : Type 0 where
  pub chunks : List (ℕ × Bytes)
  pub chunk_device : List (ℕ × ℕ)
  pub next_chunk_id : ℕ
  pub num_ssd_devices : ℕ
  pub device_inflight : ℕ
  pub max_device_inflight : ℕ
  pub read_log : List (ℕ × ℕ × ℕ)
  pub write_log : List (ℕ × ℕ × ℕ)

-- `__init__`
unfoldable pub new_fake : ℕ → Fake
new_fake num_ssd_devices = record {
  chunks = [];
  chunk_device = [];
  next_chunk_id = 1;
  num_ssd_devices = num_ssd_devices;
  device_inflight = 0;
  max_device_inflight = 0;
  read_log = [];
  write_log = [];
}

-- The descriptor that `umm_alloc` fills.
abbrev pub new_desc : ℕ → ℕ → ChunkDescriptor
new_desc cid size = record { chunk_id = cid; base_gpa = 1048576 + cid * 65536; user_size = size }

-- `umm_alloc`
unfoldable pub fake_alloc : ℕ → Call Fake ChunkDescriptor
fake_alloc size f =
    let cid = f.next_chunk_id in
    (
      (pos 0, new_desc cid size),
      record f { next_chunk_id = cid + 1; chunks = dict_set cid (replicate size 0) f.chunks },
    )

abbrev pub fake_free_found : ChunkDescriptor → Option Bytes → Call Fake (Unit {0})
fake_free_found desc none f = ((pos 1, tt), f)
fake_free_found desc (some bytes) f = (
  (pos 0, tt),
  record f {
    chunks = dict_del desc.chunk_id f.chunks;
    chunk_device = dict_del desc.chunk_id f.chunk_device;
  },
)

-- `umm_free`
unfoldable pub fake_free : ChunkDescriptor → Call Fake (Unit {0})
fake_free desc f = fake_free_found desc (dict_get desc.chunk_id f.chunks) f

-- The descriptor object as `ChunkDescriptor()` makes it.
abbrev pub zero_desc : ChunkDescriptor
zero_desc = record { chunk_id = 0; base_gpa = 0; user_size = 0 }

abbrev pub keep_device : ℕ → (ℤ × ChunkDescriptor) × Fake → (ℤ × ChunkDescriptor) × Fake
keep_device device_idx ((rc, desc), f) =
    ((rc, desc), record f { chunk_device = dict_set desc.chunk_id device_idx f.chunk_device })

-- `umm_alloc_on_device`; the inner allocation always succeeds.
unfoldable pub fake_alloc_on_device : ℕ → ℕ → ℕ → Call Fake ChunkDescriptor
unfolding fake_alloc
fake_alloc_on_device size tier device_idx f =
    if not (tier == umm_tier_ssd) || leb f.num_ssd_devices device_idx
    then ((pos 3, zero_desc), f)
    else keep_device device_idx (fake_alloc size f)

-- The resources `fake-ssd-i`, from `i` on; the number stands for the path.
abbrev pub fake_resources : ℕ → ℕ → List StorageResource
fake_resources i zero = []
fake_resources i (suc n) =
    record {
      tier = umm_tier_ssd;
      device_path = i;
      capacity = 1099511627776;
      base_offset = 0;
      online = true;
    }
    ∷ fake_resources (suc i) n

-- `umm_get_topology`: the array has room for 20 resources.
unfoldable pub fake_get_topology : Fake → Result (ℤ × StorageTopology) × Fake
fake_get_topology f =
    if ltb 20 f.num_ssd_devices
    then (err index_error, f)
    else (ok (pos 0, record { node_id = 0; resources = fake_resources 0 f.num_ssd_devices }), f)

-- `_io_enter`, then `_io_exit`: the peak counts this call.
unfoldable pub io_done : Fake → Fake
io_done f = record f { max_device_inflight = max f.max_device_inflight (f.device_inflight + 1) }

abbrev pub fake_read_found : ChunkDescriptor → ℕ → ℕ → Option Bytes → Call Fake Bytes
fake_read_found desc offset size none f = ((pos 1, replicate size 0), f)
fake_read_found desc offset size (some bytes) f =
    if ltb (length bytes) (offset + size) then ((pos 2, replicate size 0), f) else (
      (pos 0, slice bytes offset size),
      io_done (record f { read_log = f.read_log ++ (desc.chunk_id, offset, size) ∷ [] }),
    )

-- `umm_read`
unfoldable pub fake_read : ChunkDescriptor → ℕ → ℕ → Call Fake Bytes
unfolding io_done
fake_read desc offset size f = fake_read_found desc offset size (dict_get desc.chunk_id f.chunks) f

abbrev pub fake_write_found : ChunkDescriptor → ℕ → Bytes → Option Bytes → Call Fake (Unit {0})
fake_write_found desc offset payload none f = ((pos 1, tt), f)
fake_write_found desc offset payload (some bytes) f =
    if ltb (length bytes) (offset + length payload) then ((pos 2, tt), f) else (
      (pos 0, tt),
      io_done (record f {
        chunks = dict_set desc.chunk_id (splice bytes offset payload) f.chunks;
        write_log = f.write_log ++ (desc.chunk_id, offset, length payload) ∷ [];
      }),
    )

-- `umm_write`
unfoldable pub fake_write : ChunkDescriptor → ℕ → Bytes → Call Fake (Unit {0})
unfolding io_done
fake_write desc offset payload f =
    fake_write_found desc offset payload (dict_get desc.chunk_id f.chunks) f

-- `reset_stats`
abbrev pub reset_stats : Fake → Fake
reset_stats f = record f {
  device_inflight = 0;
  max_device_inflight = 0;
  read_log = [];
  write_log = [];
}

-- `FakeUMMLib`: the symbols that `_FakeCLib` has.
abbrev pub fake_clib : CLib
fake_clib = record {
  Dev = Fake;
  umm_alloc = fake_alloc;
  umm_alloc_tiered = none;
  fn_alloc_on_device = some fake_alloc_on_device;
  umm_free = fake_free;
  umm_read = fake_read;
  umm_write = fake_write;
  fn_get_topology = some fake_get_topology;
  umm_deinit = none;
}

abbrev pub fake_lib : UmmLib
fake_lib = bindings fake_clib
