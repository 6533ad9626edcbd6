-- ===== src/Bench/Accounts.antt =====
-- The account that `PoolClient` of bmpclient/bench/layout_replay.py keeps of the native pool.
use ummwith_client.Prelude.{
  ℕ, ◌+◌, ◌≤◌, ◌<◌, ◌≡◌, ◌≢◌, refl, ap, sym, subst, ◌∙◌, inl, inr, ltb, ◌==◌, Bool-cases, none,
  Option-cases, List, [], ◌∷◌, length, arith, Result, Result-cases, ok, err,
}
use ummwith_client.Prelude.Dict.{dict_get, dict_del, dict_get-dict_set, dict_get-dict_del}
use ummwith_client.Umm.{Bytes, ChunkDescriptor}
use ummwith_client.Bench.DirectPool as Direct
use ummwith_client.Bench.DirectPool.{NativePool, check, answered}
use ummwith_client.Bench.PoolClient as PoolClient
use ummwith_client.Bench.PoolClient.{
  Client, extent_of, alloc_on_device, free, io_place, read_into, write_from, Call, call_alloc,
  call_free, call_read, call_write, calls,
}
use ummwith_client.Bench.Extents.{
  Extents, one_range, uses, Distinct, uses-dict_set, Distinct-dict_set, uses-dict_del,
  Distinct-dict_del,
}

-- What the native pool documents: `held pool r` is how often the range `r` is allocated. An allocation that
-- succeeds adds its range, a free of an allocated range that succeeds takes it away, and nothing else changes
-- what is allocated.
module _ (native : NativePool) (held : native.Pool → ℕ × ℕ → ℕ)
    (allocates : (d n : ℕ) (pool : native.Pool)
      → (native.alloc_on_device d n pool).0.0 ≡ 0
      → (r : ℕ × ℕ)
      → held (native.alloc_on_device d n pool).1 r
        ≡ one_range ((native.alloc_on_device d n pool).0.1, n) r + held pool r)
    (refuses : (d n : ℕ) (pool : native.Pool)
      → (native.alloc_on_device d n pool).0.0 ≢ 0
      → (r : ℕ × ℕ) → held (native.alloc_on_device d n pool).1 r ≡ held pool r)
    (forgets : (o n : ℕ) (pool : native.Pool)
      → 0 < held pool (o, n)
      → (native.free o n pool).0 ≡ 0
      → (r : ℕ × ℕ) → one_range (o, n) r + held (native.free o n pool).1 r ≡ held pool r)
    (keeps : (o n : ℕ) (pool : native.Pool)
      → (native.free o n pool).0 ≢ 0
      → (r : ℕ × ℕ) → held (native.free o n pool).1 r ≡ held pool r)
    (reads : (o n : ℕ) (pool : native.Pool) (r : ℕ × ℕ)
      → held (native.pread o n pool).1 r ≡ held pool r)
    (writes : (o : ℕ) (bytes : Bytes) (pool : native.Pool) (r : ℕ × ℕ)
      → held (native.pwrite o bytes pool).1 r ≡ held pool r) where
  open native use {Pool}

  -- The ids of the extents are distinct and below the next one, and the pool holds the extents and, besides,
  -- what it held before.
  abbrev pub Accounted : (ℕ × ℕ → ℕ) → Client Pool → Type 0
  Accounted before c =
      Distinct c.live
      × ((k : ℕ) → c.next_id ≤ k → dict_get k c.live ≡ none)
      × ((r : ℕ × ℕ) → held c.pool r ≡ uses c.live r + before r)

  alloc_on_device-Accounted :
      (before : ℕ × ℕ → ℕ) (size d : ℕ) (c : Client Pool)
      → Accounted before c
      → Accounted before (alloc_on_device native size d c).1
  unfolding alloc_on_device
  alloc_on_device-Accounted before size d c (distinct, fresh, same) =
      let answer = native.alloc_on_device d size c.pool in
      elim (Bool-cases (ltb d (length c.reservations))) [
        | inr e ↦ rw e (distinct, fresh, same)
        | inl e ↦ elim (Bool-cases (answer.0.0 == 0)) [
          | inl z ↦
              let extent : ℕ × ℕ = (answer.0.1, size) in
              let absent = fresh c.next_id (omega arith) in
              rw (e, z)
                (
                  Distinct-dict_set c.next_id extent c.live absent distinct,
                  λ k h. ground (
                    arith,
                    h,
                    fresh k (omega (arith, h)),
                    dict_get-dict_set c.next_id k extent c.live,
                  ),
                  λ r. omega (
                    arith,
                    allocates d size c.pool (ground (arith, z)) r,
                    same r,
                    uses-dict_set c.next_id extent c.live r absent,
                  ),
                )
          | inr z ↦
              rw (e, z) (distinct, fresh, λ r. refuses d size c.pool (ground (arith, z)) r ∙ same r)
        ]
      ]

  free-Accounted :
      (before : ℕ × ℕ → ℕ) (desc : ChunkDescriptor) (c : Client Pool)
      → Accounted before c
      → Accounted before (free native desc c).1
  unfolding free
  free-Accounted before desc c (distinct, fresh, same) =
      elim (Option-cases (dict_get desc.chunk_id c.live)) [
        | inl e ↦ rw (e, free) (distinct, fresh, same)
        | inr ((o, n), e) ↦
            let left : (r : ℕ × ℕ)
                → one_range (o, n) r + uses (dict_del desc.chunk_id c.live) r ≡ uses c.live r =
              (λ r. uses-dict_del desc.chunk_id (o, n) c.live r e distinct) in
            let positive : 0 < held c.pool (o, n) = ground (arith, same (o, n), left (o, n)) in
            elim (Bool-cases ((native.free o n c.pool).0 == 0)) [
              | inl z ↦
                  rw (e, free, z)
                    (
                      Distinct-dict_del desc.chunk_id c.live distinct,
                      λ k h. ground (arith, fresh k h, dict_get-dict_del desc.chunk_id k c.live),
                      λ r. omega (
                        arith,
                        forgets o n c.pool positive (ground (arith, z)) r,
                        same r,
                        left r,
                      ),
                    )
              | inr z ↦
                  rw (e, free, z)
                    (distinct, fresh, λ r. keeps o n c.pool (ground (arith, z)) r ∙ same r)
            ]
      ]

  answered-state :
      {A : Type 0} (u : Result (Unit {0})) (a : A) (pool : Pool) → (answered u a pool).1 ≡ pool
  answered-state (ok u) a pool = refl
  answered-state (err e) a pool = refl

  read_into-Accounted :
      (before : ℕ × ℕ → ℕ) (desc : ChunkDescriptor) (offset n : ℕ) (c : Client Pool)
      → Accounted before c
      → Accounted before (read_into native desc offset n c).1
  unfolding read_into Direct.read
  read_into-Accounted before desc offset n c (distinct, fresh, same) =
      elim (Result-cases (io_place native c desc offset n)) [
        | inr (x, e) ↦ rw (e, read_into) (distinct, fresh, same)
        | inl (place, e) ↦
            let answer = native.pread place n c.pool in
            rw (e, read_into)
              (
                distinct,
                fresh,
                λ r.
                    ap (λ (p : Pool). held p r)
                      (answered-state (check answer.0.0) answer.0.1 answer.1)
                    ∙ reads place n c.pool r
                    ∙ same r,
              )
      ]

  write_from-Accounted :
      (before : ℕ × ℕ → ℕ) (desc : ChunkDescriptor) (offset : ℕ) (bytes : Bytes) (c : Client Pool)
      → Accounted before c
      → Accounted before (write_from native desc offset bytes c).1
  unfolding write_from Direct.write
  write_from-Accounted before desc offset bytes c (distinct, fresh, same) =
      elim (Result-cases (io_place native c desc offset (length bytes))) [
        | inr (x, e) ↦ rw (e, write_from) (distinct, fresh, same)
        | inl (place, e) ↦ elim (Bool-cases ((native.pwrite place bytes c.pool).0 == 0)) [
          | inl z ↦
              rw (e, write_from, z) (distinct, fresh, λ r. writes place bytes c.pool r ∙ same r)
          | inr z ↦
              rw (e, write_from, z) (distinct, fresh, λ r. writes place bytes c.pool r ∙ same r)
        ]
      ]

  calls-Accounted :
      (before : ℕ × ℕ → ℕ) (cs : List (Call native)) (c : Client Pool)
      → Accounted before c
      → Accounted before (calls native cs c)
  unfolding calls
  calls-Accounted before [] c h = h
  calls-Accounted before (call_alloc size d ∷ cs) c h =
      calls-Accounted before cs (alloc_on_device native size d c).1
        (alloc_on_device-Accounted before size d c h)
  calls-Accounted before (call_free desc ∷ cs) c h =
      calls-Accounted before cs (free native desc c).1 (free-Accounted before desc c h)
  calls-Accounted before (call_read desc offset n ∷ cs) c h =
      calls-Accounted before cs (read_into native desc offset n c).1
        (read_into-Accounted before desc offset n c h)
  calls-Accounted before (call_write desc offset bytes ∷ cs) c h =
      calls-Accounted before cs (write_from native desc offset bytes c).1
        (write_from-Accounted before desc offset bytes c h)

  Built : Result (Client Pool) × Pool → Type 0
  Built (ok c, pool) = (c.live ≡ []) × (c.pool ≡ pool)
  Built (err e, pool) = Unit

  init-Built :
      (reservations : List (ℕ × ℕ)) (pool : Pool) → Built (PoolClient.init native reservations pool)
  unfolding PoolClient.init Built
  init-Built reservations pool =
      let after : Pool = (PoolClient.free_windows native reservations pool).1 in
      elim (Result-cases (PoolClient.free_windows native reservations pool).0) [
        | inr (x, e) ↦ rw (e, PoolClient.init) tt
        | inl (u, e) ↦
            elim (Result-cases (PoolClient.bases_from native (length reservations) 0 after)) [
              | inr (x, e') ↦ rw (e, e', PoolClient.init) tt
              | inl (bases, e') ↦ rw (e, e', PoolClient.init) (refl, refl)
            ]
      ]

  nothing : (k : ℕ) → dict_get {A = ℕ × ℕ} k [] ≡ none
  unfolding dict_get
  nothing k = refl

  -- When the native pool holds what is allocated and not yet freed, then after any calls on a new client,
  -- whether these returned or raised, the pool holds the live extents and what it held when the client was made.
  pub calls_account :
      (reservations : List (ℕ × ℕ)) (pool pool' : Pool) (c : Client Pool) (cs : List (Call native))
      (r : ℕ × ℕ)
      → PoolClient.init native reservations pool ≡ (ok c, pool')
      → held (calls native cs c).pool r ≡ uses (calls native cs c).live r + held pool' r
  unfolding Built
  calls_account reservations pool pool' c cs r e =
      let (empty, here) = subst Built e (init-Built reservations pool) in
      let start : Accounted (held pool') c = (
        subst Distinct (sym empty) tt,
        λ k h. subst (λ (d : Extents). dict_get k d ≡ none) (sym empty) (nothing k),
        λ r. ap (λ (p : Pool). held p r) here ∙ omega (arith, ap (λ (d : Extents). uses d r) empty),
      ) in
      (calls-Accounted (held pool') cs c start).2 r
