-- ===== src/Umm/Clib.antt =====
-- `UMMLib` of bmpclient/umm_client.py, over the C functions of libumm. A C function fills the object
-- that it gets a pointer to and returns a code; the object comes back beside the code. A symbol that
-- the library may lack is an option.
use ummwith_client.Prelude.{
  ℕ, ◌==◌, Bool, true, not, Option, none, some, List, [], ◌∷◌, if◌then◌else◌, length, Result, ok,
  err, runtime_error, attribute_error,
}
use ummwith_client.Prelude.Int.{ℤ, pos, negsuc}
use ummwith_client.Prelude.Action.{Action}
use ummwith_client.Umm.{Bytes, ChunkDescriptor, UmmLib}

-- `StorageResource`; a path is a number here, as nothing looks into it.
pub record StorageResource : Type 0 where
  pub tier : ℕ
  pub device_path : ℕ
  pub capacity : ℕ
  pub base_offset : ℕ
  pub online : Bool

-- `StorageTopology`
pub record StorageTopology : Type 0 where
  pub node_id : ℕ
  pub resources : List StorageResource

abbrev pub umm_tier_ssd : ℕ
umm_tier_ssd = 2

-- A call of C: the code and what it filled, or an exception of the caller's side.
abbrev pub Call : Type 0 → Type 0 → Type 0
Call Dev A = Dev → (ℤ × A) × Dev

pub record CLib : Type 1 where
  pub Dev : Type 0
  pub umm_alloc : ℕ → Call Dev ChunkDescriptor
  pub umm_alloc_tiered : Option (ℕ → ℕ → Call Dev ChunkDescriptor)
  pub fn_alloc_on_device : Option (ℕ → ℕ → ℕ → Call Dev ChunkDescriptor)
  pub umm_free : ChunkDescriptor → Call Dev (Unit {0})
  pub umm_read : ChunkDescriptor → ℕ → ℕ → Call Dev Bytes
  pub umm_write : ChunkDescriptor → ℕ → Bytes → Call Dev (Unit {0})
  pub fn_get_topology : Option (Dev → Result (ℤ × StorageTopology) × Dev)
  pub umm_deinit : Option (Dev → Dev)

-- `rc != UMM_OK`
abbrev pub failed : ℤ → Bool
failed (pos n) = not (n == 0)
failed (negsuc n) = true

-- `if rc != UMM_OK: raise RuntimeError(…)`, then the value.
unfoldable pub checked : {A : Type 0} → ℤ → A → Result A
checked rc a = if failed rc then err runtime_error else ok a

abbrev pub finish : {Dev A : Type 0} → (ℤ × A) × Dev → Result A × Dev
finish ((rc, a), dev) = (checked rc a, dev)

module _ (c : CLib) where
  open c use {Dev}

  -- `alloc`
  abbrev pub clib_alloc : ℕ → Action Dev ChunkDescriptor
  clib_alloc size dev = finish (c.umm_alloc size dev)

  -- `alloc_tiered`: a symbol that is not there raises AttributeError.
  abbrev pub clib_alloc_tiered : ℕ → ℕ → Action Dev ChunkDescriptor
  clib_alloc_tiered size tier dev = elim c.umm_alloc_tiered [
    | none ↦ (err attribute_error, dev)
    | some f ↦ finish (f size tier dev)
  ]

  -- `alloc_on_device`
  abbrev pub clib_alloc_on_device : ℕ → ℕ → ℕ → Action Dev ChunkDescriptor
  clib_alloc_on_device size tier device_idx dev = elim c.fn_alloc_on_device [
    | none ↦ (err runtime_error, dev)
    | some f ↦ finish (f size tier device_idx dev)
  ]

  -- `free`
  abbrev pub clib_free : ChunkDescriptor → Action Dev (Unit {0})
  clib_free desc dev = finish (c.umm_free desc dev)

  -- `read`
  abbrev pub clib_read : ChunkDescriptor → ℕ → ℕ → Action Dev Bytes
  clib_read desc offset size dev = finish (c.umm_read desc offset size dev)

  -- `write`: nothing is written for no bytes.
  unfoldable pub clib_write : ChunkDescriptor → ℕ → Bytes → Action Dev (Unit {0})
  clib_write desc offset [] dev = (ok tt, dev)
  clib_write desc offset (b ∷ bytes) dev = finish (c.umm_write desc offset (b ∷ bytes) dev)

  -- `read_into`, for a writable buffer of `size` bytes: what the buffer has afterwards.
  unfoldable pub clib_read_into : ChunkDescriptor → ℕ → ℕ → Action Dev Bytes
  clib_read_into desc offset size dev =
      if size == 0 then (ok [], dev) else finish (c.umm_read desc offset size dev)

  abbrev pub counted : ℕ → (ℤ × Unit {0}) × Dev → Result ℕ × Dev
  counted n ((rc, u), dev) = (checked rc n, dev)

  -- `write_from`: the number of bytes.
  unfoldable pub clib_write_from : ChunkDescriptor → ℕ → Bytes → Action Dev ℕ
  clib_write_from desc offset [] dev = (ok 0, dev)
  clib_write_from desc offset (b ∷ bytes) dev =
      counted (length (b ∷ bytes)) (c.umm_write desc offset (b ∷ bytes) dev)

  abbrev pub answered : Result (ℤ × StorageTopology) × Dev → Result StorageTopology × Dev
  answered (err e, dev) = (err e, dev)
  answered (ok (rc, topo), dev) = (checked rc topo, dev)

  -- `get_topology`
  unfoldable pub clib_get_topology : Action Dev StorageTopology
  clib_get_topology dev = elim c.fn_get_topology [
    | none ↦ (err runtime_error, dev)
    | some f ↦ answered (f dev)
  ]

  -- `deinit`
  abbrev pub clib_deinit : Action Dev (Unit {0})
  clib_deinit dev = elim c.umm_deinit [
    | none ↦ (err attribute_error, dev)
    | some f ↦ (ok tt, f dev)
  ]

  -- The class as the clients see it.
  abbrev pub bindings : UmmLib
  bindings = record {
    Dev = Dev;
    write_from = clib_write_from;
    read_into = clib_read_into;
    alloc = clib_alloc;
    alloc_tiered = λ size. clib_alloc_tiered size umm_tier_ssd;
    alloc_on_device = λ size. clib_alloc_on_device size umm_tier_ssd;
    free = clib_free;
    read = clib_read;
    write = clib_write;
    deinit = clib_deinit;
    resolver = none;
  }
