-- ===== src/Bench/Windows.antt =====
-- The windows of the devices in `DirectPool` of bmpclient/bench/single_ssd.py and `PoolClient` of
-- bmpclient/bench/layout_replay.py: which byte of the pool is which byte of a device.
use ummwith_client.Prelude.{
  ℕ, ◌+◌, ◌-◌, ◌≤◌, ◌≡◌, refl, sym, ◌∙◌, inl, inr, ltb, ◌||◌, none, some, Option-cases, List, [],
  ◌∷◌, if◌then◌else◌, length, get_elem?, arith, Result, ok, err, Error, runtime_error, memory_error,
  value_error, key_error, Option,
}
use ummwith_client.Prelude.Dict.{dict_get}
use ummwith_client.Umm.{ChunkDescriptor}
use ummwith_client.Bench.DirectPool as Direct
use ummwith_client.Bench.DirectPool.{NativePool, DirectPool, Window}
use ummwith_client.Bench.PoolClient.{Client, resolve_ssd_extent_base, io_place}

resolve_unknown :
    {P : Type 0} (c : Client P) (desc : ChunkDescriptor) (d : ℕ)
    → dict_get desc.chunk_id c.live ≡ none
    → resolve_ssd_extent_base c desc d ≡ err key_error
unfolding resolve_ssd_extent_base
resolve_unknown c desc d e = rw (e, resolve_ssd_extent_base) refl

resolve_known :
    {P : Type 0} (c : Client P) (desc : ChunkDescriptor) (d start size base capacity window : ℕ)
    → dict_get desc.chunk_id c.live ≡ some (start, size)
    → get_elem? c.reservations d ≡ some (base, capacity)
    → get_elem? c.window_bases d ≡ some window
    → resolve_ssd_extent_base c desc d ≡ (
        if ltb start base || ltb (base + capacity) (start + size)
        then err value_error
        else ok (window + start - base))
unfolding resolve_ssd_extent_base
resolve_known c desc d start size base capacity window e at_d begins =
    rw (e, at_d, begins, resolve_ssd_extent_base) refl

place_known :
    (native : NativePool) (c : Client native.Pool) (desc : ChunkDescriptor)
    (offset n start size : ℕ)
    → dict_get desc.chunk_id c.live ≡ some (start, size)
    → io_place native c desc offset n
      ≡ (if ltb size offset || ltb (size - offset) n then err value_error else ok (start + offset))
unfolding io_place
place_known native c desc offset n start size e = rw (e, io_place) refl

raised-ok : (e : Error) (a : ℕ) → ¬ (err e ≡ ok a)
raised-ok e a h = cc

-- What a client reads or writes of an extent whose base on its device is resolved lies in the window of the
-- device, and the byte of the pool is the byte of the device at the base and the offset.
pub io_place-resolve :
    (native : NativePool) (c : Client native.Pool) (desc : ChunkDescriptor)
    (d offset n base capacity window a p : ℕ)
    → get_elem? c.reservations d ≡ some (base, capacity)
    → get_elem? c.window_bases d ≡ some window
    → resolve_ssd_extent_base c desc d ≡ ok a
    → io_place native c desc offset n ≡ ok p
    → (p + window ≡ a + offset + base) × (window ≤ a) × (a + offset + n ≤ window + capacity)
io_place-resolve native c desc d offset n base capacity window a p at_d begins resolves places =
    elim (Option-cases (dict_get desc.chunk_id c.live)) [
      | inl e ↦
          let unknown : resolve_ssd_extent_base c desc d ≡ err key_error =
            resolve_unknown c desc d e in
          absurd (raised-ok key_error a (sym unknown ∙ resolves))
      | inr ((start, size), e) ↦
          let base_is = resolve_known c desc d start size base capacity window e at_d begins in
          let place_is = place_known native c desc offset n start size e in
          (
            ground (arith, base_is, place_is, resolves, places),
            ground (arith, base_is, resolves),
            ground (arith, base_is, place_is, resolves, places),
          )
    ]

abbrev pub window_bytes : List Window → ℕ
window_bytes [] = 0
window_bytes (w ∷ ws) = w.size + window_bytes ws

-- The windows stand one after the other from `total` on.
abbrev pub Stacked : ℕ → List Window → List (ℕ × ℕ) → Type 0
Stacked total [] reservations = reservations ≡ []
Stacked total (w ∷ ws) [] = ⊥
Stacked total (w ∷ ws) ((offset, size) ∷ rest) =
    (offset ≡ total) × (size ≡ w.size) × Stacked (total + w.size) ws rest

module _ (native : NativePool) where
  open native use {Pool}

  abbrev StackedPost : ℕ → List Window → Result (List (ℕ × ℕ)) × Pool → Type 0
  StackedPost total ws (ok reservations, pool) = Stacked total ws reservations
  StackedPost total ws (err e, pool) = e ≡ runtime_error

  abbrev OnlyRuntime : {A : Type 0} → (A → Type 0) → Result A × Pool → Type 0
  OnlyRuntime P (ok a, pool) = P a
  OnlyRuntime P (err e, pool) = e ≡ runtime_error

  -- One reservation for each window, side by side from 0 on, and their number and sum.
  abbrev pub Reserves : List Window → DirectPool → Type 0
  Reserves ws d =
      Stacked 0 ws d.reservations × (d.device_count ≡ length ws) × (d.capacity ≡ window_bytes ws)

  -- What the constructor gives on the answer of `ssd_pool_create`, where `tried` is what the reservation
  -- of the windows comes to.
  abbrev pub Opened :
      List Window
      → Option Pool
      → (Pool → Result DirectPool × Pool)
      → Result DirectPool × Option Pool
      → Type 0
  Opened ws none tried r = r ≡ (err memory_error, none)
  Opened ws (some pool) tried (r, none) = ⊥
  Opened ws (some pool) tried (ok d, some pool') =
      Reserves ws d × ((tried pool).0 ≡ ok d) × (pool' ≡ (tried pool).1)
  Opened ws (some pool) tried (err e, some pool') =
      (e ≡ runtime_error) × ((tried pool).0 ≡ err e) × (pool' ≡ native.destroy (tried pool).1)
