-- ===== src/Umm.antt =====
-- bmpclient/umm_client.py as its clients see it: chunk descriptors, and an interface of the calls
-- that reach libumm through ctypes. The library itself is C code behind the foreign function
-- interface, so its calls are fields, and what it does to the device is a state.
pub mod Clib
use ummwith_client.Prelude.{ℕ, List, Option, Result}
use ummwith_client.Prelude.Action.{Action}

abbrev pub Bytes : Type 0
Bytes = List ℕ

-- `ChunkDescriptor`
pub record ChunkDescriptor : Type 0 where
  pub chunk_id : ℕ
  pub base_gpa : ℕ
  pub user_size : ℕ

-- The methods of `UMMLib` that the media layer calls, over the state `Dev` of the devices.
-- The tier of `alloc_tiered` and `alloc_on_device` is the SSD's. `read_into` returns the bytes that it puts into the caller's buffer of the given length.
-- `resolver` is `resolve_ssd_extent_base`, which not every library has.
pub record UmmLib : Type 1 where
  pub Dev : Type 0
  pub write_from : ChunkDescriptor → ℕ → Bytes → Action Dev ℕ
  pub read_into : ChunkDescriptor → ℕ → ℕ → Action Dev Bytes
  pub alloc : ℕ → Action Dev ChunkDescriptor
  pub alloc_tiered : ℕ → Action Dev ChunkDescriptor
  pub alloc_on_device : ℕ → ℕ → Action Dev ChunkDescriptor
  pub free : ChunkDescriptor → Action Dev (Unit {0})
  pub read : ChunkDescriptor → ℕ → ℕ → Action Dev Bytes
  pub write : ChunkDescriptor → ℕ → Bytes → Action Dev (Unit {0})
  pub deinit : Action Dev (Unit {0})
  pub resolver : Option (Dev → ChunkDescriptor → ℕ → Result ℕ)
