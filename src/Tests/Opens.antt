-- ===== src/Tests/Opens.antt =====
-- Runs and instances for the constructor of the virtual media.
use ummwith_client.Prelude.{
  ℕ, suc, ◌+◌, ◌-◌, ◌<◌, ◌≡◌, refl, arith, ltb, lt→ltb, ℕ_discrete, subst, sym, ◌==◌, Bool, true,
  false, none, some, [], ◌∷◌, length, replicate, ok, err, Error, Result, runtime_error,
}
use ummwith_client.Umm.{ChunkDescriptor, UmmLib}
use ummwith_client.Umm.Clib.{StorageResource, StorageTopology}
use ummwith_client.VirtualMedia.Open.{Setup, every, built_with, count_ssd, init}
use ummwith_client.VirtualMedia.Rollback.{Constructed, init-Constructed}
use ummwith_client.VirtualMedia.Limits.{ReadsUnits}
use ummwith_client.VirtualMedia.Fresh.{one_at}

abbrev free_chunk : Bool → ChunkDescriptor → (ℕ → ℕ) × ℕ → Result (Unit {0}) × ((ℕ → ℕ) × ℕ)
free_chunk true d dev = (ok tt, (λ c. dev.0 c - one_at d.chunk_id c, dev.1))
free_chunk false d dev = (err runtime_error, dev)

abbrev take_chunk : Bool → ℕ → (ℕ → ℕ) × ℕ → Result ChunkDescriptor × ((ℕ → ℕ) × ℕ)
take_chunk true size dev = (err runtime_error, dev)
take_chunk false size dev = (
  ok (record { chunk_id = dev.1; base_gpa = 0; user_size = size }),
  (λ c. one_at dev.1 c + dev.0 c, suc dev.1),
)

-- A library that counts the chunks in use; device 2 is full.
abbrev counting : UmmLib
counting = record {
  Dev = (ℕ → ℕ) × ℕ;
  write_from = λ d o b dev. (ok (length b), dev);
  read_into = λ d o k dev. (ok (replicate k 0), dev);
  alloc = λ size dev. (err runtime_error, dev);
  alloc_tiered = λ size dev. (err runtime_error, dev);
  alloc_on_device = λ size i dev. take_chunk (i == 2) size dev;
  free = λ d dev. free_chunk (ltb 0 (dev.0 d.chunk_id)) d dev;
  read = λ d o k dev. (ok (replicate k 0), dev);
  write = λ d o b dev. (ok tt, dev);
  deinit = λ dev. (ok tt, dev);
  resolver = none;
}

abbrev ssd : StorageResource
ssd = record { tier = 2; device_path = 0; capacity = 1048576; base_offset = 0; online = true }

abbrev topology : StorageTopology
topology = record { node_id = 0; resources = ssd ∷ ssd ∷ ssd ∷ [] }

abbrev setup : Setup
setup = record {
  capacity = every 16384;
  unit_size = 4096;
  num_workers = 4;
  choice = built_with (record {
    step_idx = none;
    step_layer = none;
    prime = some 101;
    max_token_idx = none;
    max_layer_id = none;
  });
  sp_bytes = 8192;
  sp_override = [];
  read_merge = true;
  max_read_bytes = none;
}

abbrev none_in_use : (ℕ → ℕ) × ℕ
none_in_use = (λ c. 0, 1)

abbrev id_of : Result ChunkDescriptor → ℕ
id_of (ok desc) = desc.chunk_id
id_of (err e) = 0

take_chunk_allocates :
    (full : Bool) (n : ℕ) (dev dev' : (ℕ → ℕ) × ℕ) (desc : ChunkDescriptor)
    → take_chunk full n dev ≡ (ok desc, dev')
    → (c : ℕ) → dev'.0 c ≡ one_at desc.chunk_id c + dev.0 c
take_chunk_allocates true n dev dev' desc e c =
    let wrong : err runtime_error ≡ ok desc = (λ i. (e i).0) in absurd (cc wrong)
take_chunk_allocates false n dev dev' desc e c =
    let same : dev.1 ≡ desc.chunk_id = (λ i. id_of (e i).0) in
    let counted : one_at dev.1 c + dev.0 c ≡ dev'.0 c = (λ i. (e i).1.0 c) in
    ground (arith, same, counted)

take_chunk_refuses :
    (full : Bool) (n : ℕ) (dev dev' : (ℕ → ℕ) × ℕ) (e : Error)
    → take_chunk full n dev ≡ (err e, dev')
    → (c : ℕ) → dev'.0 c ≡ dev.0 c
take_chunk_refuses true n dev dev' e h c = λ i. (sym h i).1.0 c
take_chunk_refuses false n dev dev' e h c =
    let wrong : ok (record { chunk_id = dev.1; base_gpa = 0; user_size = n }) ≡ err e =
      (λ i. (h i).0) in
    absurd (cc wrong)

counting_frees :
    (desc : ChunkDescriptor) (dev : (ℕ → ℕ) × ℕ)
    → 0 < dev.0 desc.chunk_id
    → (counting.free desc dev).0 ≡ ok tt
counting_frees desc dev h = rw (lt→ltb 0 (dev.0 desc.chunk_id) h) refl

counting_forgets :
    (desc : ChunkDescriptor) (dev : (ℕ → ℕ) × ℕ)
    → 0 < dev.0 desc.chunk_id
    → (c : ℕ) → one_at desc.chunk_id c + (counting.free desc dev).1.0 c ≡ dev.0 c
counting_forgets desc dev h c =
    rw (lt→ltb 0 (dev.0 desc.chunk_id) h) (elim (ℕ_discrete desc.chunk_id c) [
      | yes p ↦ let some_use : 0 < dev.0 c = subst (λ (k : ℕ). 0 < dev.0 k) p h in ground (arith, p)
      | no p ↦ ground (arith, p)
    ])

-- The extents of the devices 0 and 1 are freed again.
init-Constructed_example :
    Constructed counting
      (λ dev. dev.0)
      (λ n d. take_chunk_allocates (d == 2) n)
      (λ n d. take_chunk_refuses (d == 2) n)
      counting_frees
      counting_forgets
      (λ c. 0)
      setup
      3
      (init counting (λ dev. (ok topology, dev)) setup none_in_use)
    × ReadsUnits counting (init counting (λ dev. (ok topology, dev)) setup none_in_use)
unfolding count_ssd
init-Constructed_example =
    init-Constructed counting (λ dev. dev.0) (λ n d. take_chunk_allocates (d == 2) n)
      (λ n d. take_chunk_refuses (d == 2) n) counting_frees counting_forgets
      (λ dev. (ok topology, dev)) setup none_in_use (λ c. refl)
