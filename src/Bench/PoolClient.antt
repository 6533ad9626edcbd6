-- ===== src/Bench/PoolClient.antt =====
-- `PoolClient` of bmpclient/bench/layout_replay.py: the calls of `UMMLib` that `VirtualMedia` uses, on a
-- `DirectPool`. No page is watched.
use ummwith_client.Prelude.{
  ℕ, zero, suc, ◌+◌, ◌-◌, ltb, ◌||◌, not, none, some, List, [], ◌∷◌, if◌then◌else◌, length,
  get_elem?, Result, ok, err, value_error, index_error, key_error, attribute_error,
}
use ummwith_client.Prelude.Action.{Action, ◌>>◌}
use ummwith_client.Prelude.Dict.{dict_get, dict_set, dict_del}
use ummwith_client.Umm.{Bytes, ChunkDescriptor, UmmLib}
use ummwith_client.Bench.DirectPool as Direct
use ummwith_client.Bench.DirectPool.{NativePool, check, checked_unit}

-- The reservations are the windows of the devices, `window_bases` where they begin on the devices. `live` is
-- the dict from the id of an extent to its offset in the pool and its size.
pub record Client (P : Type 0) : Type 0 where
  pub pool : P
  pub reservations : List (ℕ × ℕ)
  pub window_bases : List ℕ
  pub live : List (ℕ × (ℕ × ℕ))
  pub next_id : ℕ

-- A call on the pool of the client.
abbrev pub on_pool : {P A : Type 0} → Action P A → Action (Client P) A
on_pool f c = let (r, pool') = f c.pool in (r, record c { pool = pool' })

-- `self.live[desc.chunk_id]`
abbrev pub extent_of : {P : Type 0} → Client P → ChunkDescriptor → Result (ℕ × ℕ)
extent_of c desc = elim (dict_get desc.chunk_id c.live) [
  | none ↦ err key_error
  | some extent ↦ ok extent
]

-- `resolve_ssd_extent_base`
unfoldable pub resolve_ssd_extent_base : {P : Type 0} → Client P → ChunkDescriptor → ℕ → Result ℕ
resolve_ssd_extent_base c desc d = elim (extent_of c desc) [
  | err e ↦ err e
  | ok (offset, size) ↦ elim (get_elem? c.reservations d) [
    | none ↦ err index_error
    | some (base, capacity) ↦
        if ltb offset base || ltb (base + capacity) (offset + size)
        then err value_error
        else elim (get_elem? c.window_bases d) [
          | none ↦ err index_error
          | some window ↦ ok (window + offset - base)
        ]
  ]
]

module _ (native : NativePool) where
  open native use {Pool}

  -- `PoolClient.__init__`: the windows are returned to the pool.
  unfoldable pub free_windows : List (ℕ × ℕ) → Action Pool (Unit {0})
  free_windows [] pool = (ok tt, pool)
  free_windows ((offset, size) ∷ rest) pool =
      (checked_unit (native.free offset size) >> free_windows rest) pool

  -- The bases of the windows of `n` devices from `d` on.
  unfoldable pub bases_from : ℕ → ℕ → Pool → Result (List ℕ)
  bases_from zero d pool = ok []
  bases_from (suc n) d pool = elim (Direct.stats native d pool) [
    | err e ↦ err e
    | ok s ↦ elim (bases_from n (suc d) pool) [
      | err e ↦ err e
      | ok bases ↦ ok (s.window_base ∷ bases)
    ]
  ]

  unfoldable pub init : List (ℕ × ℕ) → Pool → Result (Client Pool) × Pool
  unfolding free_windows bases_from
  init reservations pool =
      let (r, pool') = free_windows reservations pool in
      elim r [
        | err e ↦ (err e, pool')
        | ok u ↦ elim (bases_from (length reservations) 0 pool') [
          | err e ↦ (err e, pool')
          | ok bases ↦ (
            ok (record {
              pool = pool';
              reservations = reservations;
              window_bases = bases;
              live = [];
              next_id = 1;
            }),
            pool',
          )
        ]
      ]

  -- What `alloc_on_device` does with the offset that it gets.
  abbrev pub keep_extent : ℕ → ℕ → Client Pool → Client Pool
  keep_extent offset size c = record c {
    live = dict_set c.next_id (offset, size) c.live;
    next_id = suc c.next_id;
  }

  -- `alloc_on_device`, on the tier of the SSDs.
  unfoldable pub alloc_on_device : ℕ → ℕ → Action (Client Pool) ChunkDescriptor
  alloc_on_device size d c =
      if not (ltb d (length c.reservations))
      then (err value_error, c)
      else let ((rc, offset), pool') = native.alloc_on_device d size c.pool in
        elim (check rc) [
          | err e ↦ (err e, record c { pool = pool' })
          | ok u ↦ (
            ok (record { chunk_id = c.next_id; base_gpa = offset; user_size = size }),
            keep_extent offset size (record c { pool = pool' }),
          )
        ]

  -- `free`
  unfoldable pub free : ChunkDescriptor → Action (Client Pool) (Unit {0})
  free desc c = elim (extent_of c desc) [
    | err e ↦ (err e, c)
    | ok (offset, size) ↦
        let (rc, pool') = native.free offset size c.pool in
        elim (check rc) [
          | err e ↦ (err e, record c { pool = pool' })
          | ok u ↦ (ok tt, record c { pool = pool'; live = dict_del desc.chunk_id c.live })
        ]
  ]

  -- `_io`: the bounds, and the place in the pool where the call goes.
  unfoldable pub io_place : Client Pool → ChunkDescriptor → ℕ → ℕ → Result ℕ
  io_place c desc offset n = elim (extent_of c desc) [
    | err e ↦ err e
    | ok (start, size) ↦
        if ltb size offset || ltb (size - offset) n then err value_error else ok (start + offset)
  ]

  unfoldable pub read_into : ChunkDescriptor → ℕ → ℕ → Action (Client Pool) Bytes
  unfolding io_place
  read_into desc offset n c = elim (io_place c desc offset n) [
    | err e ↦ (err e, c)
    | ok place ↦ on_pool (Direct.read native place n) c
  ]

  unfoldable pub write_from : ChunkDescriptor → ℕ → Bytes → Action (Client Pool) ℕ
  unfolding io_place
  write_from desc offset bytes c = elim (io_place c desc offset (length bytes)) [
    | err e ↦ (err e, c)
    | ok place ↦ (on_pool (Direct.write native place bytes) >> (λ c'. (ok (length bytes), c'))) c
  ]

  -- `PoolClient` for `VirtualMedia`, which calls no other method of it.
  abbrev pub pool_lib : UmmLib
  pool_lib = record {
    Dev = Client Pool;
    write_from = write_from;
    read_into = read_into;
    alloc = λ size c. (err attribute_error, c);
    alloc_tiered = λ size c. (err attribute_error, c);
    alloc_on_device = alloc_on_device;
    free = free;
    read = λ desc offset n c. (err attribute_error, c);
    write = λ desc offset bytes c. (err attribute_error, c);
    deinit = λ c. (err attribute_error, c);
    resolver = some resolve_ssd_extent_base;
  }

  -- A call of a client.
  pub data Call : Type 0 where
    call_alloc : ℕ → ℕ → Call
    call_free : ChunkDescriptor → Call
    call_read : ChunkDescriptor → ℕ → ℕ → Call
    call_write : ChunkDescriptor → ℕ → Bytes → Call

  -- The client after some calls, whether these return or raise.
  unfoldable pub calls : List Call → Client Pool → Client Pool
  calls [] c = c
  calls (call_alloc size d ∷ rest) c = calls rest (alloc_on_device size d c).1
  calls (call_free desc ∷ rest) c = calls rest (free desc c).1
  calls (call_read desc offset n ∷ rest) c = calls rest (read_into desc offset n c).1
  calls (call_write desc offset bytes ∷ rest) c = calls rest (write_from desc offset bytes c).1
