-- ===== src/Bench/DirectPool.antt =====
-- `DirectPool` of bmpclient/bench/single_ssd.py. The pool itself is C code of libumm: its functions are the
-- fields of `NativePool`, over a state `Pool`; each gives a return code, 0 for success. What
-- `ssd_pool_create` answers is an argument of the constructor: a pool, or none for NULL. A target is a number.
use ummwith_client.Prelude.{
  ℕ, suc, ◌+◌, ◌==◌, not, List, [], ◌∷◌, none, some, Option, Result, ok, err, runtime_error,
  memory_error, raise_if,
}
use ummwith_client.Prelude.Action.{Action, lift, ◌>>=◌, ◌>>◌}
use ummwith_client.Umm.{Bytes}

-- `IOStats`
pub record IoStats : Type 0 where
  pub read_calls : ℕ
  pub write_calls : ℕ
  pub read_bytes : ℕ
  pub write_bytes : ℕ
  pub bounce_bytes : ℕ
  pub alignment : ℕ
  pub window_base : ℕ

pub record NativePool : Type 1 where
  pub Pool : Type 0
  pub add_device : ℕ → ℕ → ℕ → Pool → ℕ × Pool
  pub alloc_on_device : ℕ → ℕ → Pool → (ℕ × ℕ) × Pool
  pub free : ℕ → ℕ → Pool → ℕ × Pool
  pub pwrite : ℕ → Bytes → Pool → ℕ × Pool
  pub pread : ℕ → ℕ → Pool → (ℕ × Bytes) × Pool
  pub sync : ℕ → ℕ → Pool → ℕ × Pool
  pub direct_stats : ℕ → Pool → ℕ × IoStats
  pub destroy : Pool → Pool

pub record DirectPool : Type 0 where
  pub reservations : List (ℕ × ℕ)
  pub device_count : ℕ
  pub capacity : ℕ
  pub alignment : ℕ

-- `check`
abbrev pub check : ℕ → Result (Unit {0})
check rc = raise_if (not (rc == 0)) runtime_error

-- A call whose return code is checked.
abbrev pub answered : {S A : Type 0} → Result (Unit {0}) → A → S → Result A × S
answered (ok u) a s = (ok a, s)
answered (err e) a s = (err e, s)

abbrev pub checked : {S A : Type 0} → (S → (ℕ × A) × S) → Action S A
checked f s = let (answer, s') = f s in answered (check answer.0) answer.1 s'

abbrev pub checked_unit : {S : Type 0} → (S → ℕ × S) → Action S (Unit {0})
checked_unit f s = let (rc, s') = f s in (check rc, s')

-- A device of the constructor: the target, the base of its window, and its size.
pub record Window : Type 0 where
  pub target : ℕ
  pub base : ℕ
  pub size : ℕ

module _ (native : NativePool) where
  open native use {Pool}

  -- The loop of the constructor over the devices from `i` on.
  unfoldable pub reserve : ℕ → ℕ → List Window → Action Pool (List (ℕ × ℕ))
  reserve i total [] pool = (ok [], pool)
  reserve i total (w ∷ ws) pool =
      (checked_unit (native.add_device w.target w.base w.size)
          >> (checked (native.alloc_on_device i w.size) >>= (λ offset.
              lift (raise_if (not (offset == total)) runtime_error)
              >> (reserve (suc i) (total + w.size) ws
                  >>= (λ rest. lift (ok ((offset, w.size) ∷ rest)))))))
        pool

  unfoldable pub stats : ℕ → Pool → Result IoStats
  stats d pool =
      let (rc, out) = native.direct_stats d pool in
      elim (check rc) [ ok u ↦ ok out | err e ↦ err e ]

  abbrev pub sizes : List (ℕ × ℕ) → ℕ
  sizes [] = 0
  sizes ((offset, size) ∷ rest) = size + sizes rest

  abbrev pub count : List (ℕ × ℕ) → ℕ
  count [] = 0
  count (r ∷ rest) = suc (count rest)

  -- The lines after the loop.
  unfoldable pub opened : List (ℕ × ℕ) → Action Pool DirectPool
  unfolding stats
  opened reservations pool = elim (stats 0 pool) [
    | err e ↦ (err e, pool)
    | ok s ↦ (
      ok (record {
        reservations = reservations;
        device_count = count reservations;
        capacity = sizes reservations;
        alignment = s.alignment;
      }),
      pool,
    )
  ]

  -- `except BaseException: self.close(); raise`
  abbrev pub or_close : {A : Type 0} → Result A × Pool → Result A × Pool
  or_close (ok a, pool) = (ok a, pool)
  or_close (err e, pool) = (err e, native.destroy pool)

  -- The body of the `try`
  abbrev pub reserve_all : List Window → Action Pool DirectPool
  reserve_all windows = reserve 0 0 windows >>= opened

  -- `devices or [(path, window_base, capacity)]`; no devices are the empty list.
  abbrev pub windows_of : Window → List Window → List Window
  windows_of single [] = single ∷ []
  windows_of single (w ∷ ws) = w ∷ ws

  -- `self.pool` after the constructor
  abbrev pub kept : {A : Type 0} → Result A × Pool → Result A × Option Pool
  kept (r, pool) = (r, some pool)

  -- `DirectPool.__init__`
  unfoldable pub init : Window → List Window → Option Pool → Result DirectPool × Option Pool
  unfolding reserve opened
  init single devices none = (err memory_error, none)
  init single devices (some pool) = kept (or_close (reserve_all (windows_of single devices) pool))

  -- `sync`
  unfoldable pub sync : List (ℕ × ℕ) → Action Pool (Unit {0})
  sync [] pool = (ok tt, pool)
  sync ((offset, size) ∷ rest) pool = (checked_unit (native.sync offset size) >> sync rest) pool

  unfoldable pub write : ℕ → Bytes → Action Pool (Unit {0})
  write offset bytes = checked_unit (native.pwrite offset bytes)

  unfoldable pub read : ℕ → ℕ → Action Pool Bytes
  read offset size = checked (native.pread offset size)
