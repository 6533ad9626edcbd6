-- ===== src/VirtualMedia/Rollback.antt =====
-- The constructor of bmpclient/virtual_media.py against the extents that are in use on the devices.
use ummwith_client.Prelude.{
  some, get_elem?, sym, ℕ, suc, ◌+◌, ◌⊎◌, inl, inr, ◌≡◌, ◌<◌, refl, ap, subst, ◌∙◌, ◌==◌, false,
  List, [], ◌∷◌, ◌++◌, length, length-append, arith, Bool-cases, Result, Result-cases, ok, err,
  Error,
}
use ummwith_client.Umm.{ChunkDescriptor, UmmLib}
use ummwith_client.Umm.Clib.{StorageTopology}
use ummwith_client.Strategy.{PositionHash}
use ummwith_client.Segment.Manager as Segment
use ummwith_client.Segment.Manager.{Manager, count_up}
use ummwith_client.Segment.Steps.{init_manager-IsValid}
use ummwith_client.ConcurrentIo.Engine.{check_config}
use ummwith_client.VirtualMedia.Media.{VirtualMedia}
use ummwith_client.VirtualMedia.Writes.{AllValid}
use ummwith_client.VirtualMedia.Open.{
  check_max_read, init, Setup, capacity_of, super_page, count_ssd, resolve_strategy, roll_back,
  give_up, open_from, opened_media, open_on,
}
use ummwith_client.VirtualMedia.Fresh.{
  From, AllFrom, append-AllFrom, AllFrom-From, one_at, owned, owned-append, AllFresh,
  append-AllFresh, AllFresh-IsValid, length-count_up, init_desc, num_devices-resolve_strategy,
}
use ummwith_client.VirtualMedia.Limits.{ReadsUnits, AsSet-ReadsUnits, checked_limit, open_on-AsSet}

-- The library's account of its chunks: `live dev c` is how many chunks with the id `c` are in use. An
-- allocation adds the chunk that it returns, a failed one adds none, and a chunk in use can be freed.
module _ (lib : UmmLib) (live : lib.Dev → ℕ → ℕ)
    (allocates : (n d : ℕ) (dev dev' : lib.Dev) (desc : ChunkDescriptor)
      → lib.alloc_on_device n d dev ≡ (ok desc, dev')
      → (c : ℕ) → live dev' c ≡ one_at desc.chunk_id c + live dev c)
    (refuses : (n d : ℕ) (dev dev' : lib.Dev) (e : Error)
      → lib.alloc_on_device n d dev ≡ (err e, dev')
      → (c : ℕ) → live dev' c ≡ live dev c)
    (frees : (desc : ChunkDescriptor) (dev : lib.Dev)
      → 0 < live dev desc.chunk_id
      → (lib.free desc dev).0 ≡ ok tt)
    (forgets : (desc : ChunkDescriptor) (dev : lib.Dev)
      → 0 < live dev desc.chunk_id
      → (c : ℕ) → one_at desc.chunk_id c + live (lib.free desc dev).1 c ≡ live dev c) where
  open lib use {Dev}

  roll_back_lem :
      (ms : List Manager) (e : Error) (dev : Dev) (base : ℕ → ℕ)
      → ((c : ℕ) → live dev c ≡ owned ms c + base c)
      → ((roll_back lib ms e dev).0 ≡ err e)
        × ((c : ℕ) → live (roll_back lib ms e dev).1 c ≡ base c)
  unfolding roll_back
  roll_back_lem [] e dev base h = (refl, λ c. omega (arith, h c))
  roll_back_lem (m ∷ ms) e dev base h =
      let used : 0 < live dev m.desc.chunk_id = ground (arith, h m.desc.chunk_id) in
      rw (frees m.desc dev used, roll_back)
        (roll_back_lem ms e (lib.free m.desc dev).1 base
          (λ c. omega (arith, h c, forgets m.desc dev used c)))

  give_up_lem :
      (desc : ChunkDescriptor) (ms : List Manager) (e : Error) (dev : Dev) (base : ℕ → ℕ)
      → ((c : ℕ) → live dev c ≡ one_at desc.chunk_id c + (owned ms c + base c))
      → ((give_up lib desc ms e dev).0 ≡ err e)
        × ((c : ℕ) → live (give_up lib desc ms e dev).1 c ≡ base c)
  unfolding give_up
  give_up_lem desc ms e dev base h =
      let used : 0 < live dev desc.chunk_id = ground (arith, h desc.chunk_id) in
      rw (frees desc dev used, give_up)
        (roll_back_lem ms e (lib.free desc dev).1 base
          (λ c. omega (arith, h c, forgets desc dev used c)))

  -- After the loop, for `n` devices.
  abbrev pub Extents : (ℕ → ℕ) → Setup → ℕ → Result (List Manager) × Dev → Type 0
  Extents base s n (err e, dev) = (c : ℕ) → live dev c ≡ base c
  Extents base s n (ok ms, dev) =
      ((c : ℕ) → live dev c ≡ owned ms c + base c)
      × AllFresh s.unit_size ms
      × (length ms ≡ n)
      × AllFrom lib s 0 ms

  raised-Extents :
      (base : ℕ → ℕ) (s : Setup) (n : ℕ) (p : Result (List Manager) × Dev) (e : Error)
      → p.0 ≡ err e
      → ((c : ℕ) → live p.1 c ≡ base c)
      → Extents base s n p
  raised-Extents base s n (err x, dev) e same h = h
  raised-Extents base s n (ok ms, dev) e same h = absurd (cc same)

  open_from-Extents :
      (s : Setup) (ds : List ℕ) (ms : List Manager) (dev : Dev) (base : ℕ → ℕ)
      → ((c : ℕ) → live dev c ≡ owned ms c + base c)
      → AllFresh s.unit_size ms
      → AllFrom lib s 0 ms
      → ds ≡ count_up (length ms) (length ds)
      → Extents base s (length ms + length ds) (open_from lib s ds ms dev)
  unfolding open_from
  open_from-Extents s [] ms dev base h f g row = (h, f, omega arith, g)
  open_from-Extents s (d ∷ ds) ms dev base h f g row =
      elim (Result-cases (capacity_of s.capacity d)) [
        | inr (e, no_size) ↦
            let back = roll_back_lem ms e dev base h in
            rw (no_size, open_from) (raised-Extents base s _ _ e back.0 back.1)
        | inl (size, has_size) ↦
            let answer = lib.alloc_on_device size d dev in
            elim (Result-cases answer.0) [
              | inr (e, full) ↦
                  let same = refuses size d dev answer.1 e (λ i. (full i, answer.1)) in
                  let back = roll_back_lem ms e answer.1 base (λ c. same c ∙ h c) in
                  rw (has_size, full, open_from) (raised-Extents base s _ _ e back.0 back.1)
              | inl (desc, made) ↦
                  let more = allocates size d dev answer.1 desc (λ i. (made i, answer.1)) in
                  elim (Result-cases (Segment.init desc (super_page s d) s.unit_size)) [
                    | inr (e, bad) ↦
                        let back =
                          give_up_lem desc ms e answer.1 base (λ c. omega (arith, more c, h c)) in
                        rw (has_size, made, bad, open_from)
                          (raised-Extents base s _ _ e back.0 back.1)
                    | inl (m, good) ↦
                        let (fresh, whole, sp, unit) =
                          init_manager-IsValid desc (super_page s d) s.unit_size good in
                        let own = init_desc desc (super_page s d) s.unit_size m good in
                        let first : d ≡ length ms = cc row in
                        let at_device : d ≡ 0 + length ms = omega (arith, first) in
                        let tail_row : ds ≡ count_up (suc (length ms)) (length ds) = cc row in
                        let more_devices : suc (length ms) ≡ length (ms ++ m ∷ []) =
                          omega (arith, length-append ms (m ∷ [])) in
                        let count : length (ms ++ m ∷ []) + length ds
                            ≡ length ms + suc (length ds) =
                          omega (arith, length-append ms (m ∷ [])) in
                        rw (has_size, made, good, open_from)
                          (subst
                            (λ (n : ℕ).
                              Extents base s n (open_from lib s ds (ms ++ m ∷ []) answer.1))
                            count
                            (open_from-Extents s ds (ms ++ m ∷ []) answer.1 base
                              (λ c. omega (
                                arith,
                                more c,
                                h c,
                                owned-append ms m c,
                                ap (λ (x : ChunkDescriptor). one_at x.chunk_id c) own,
                              ))
                              (append-AllFresh s.unit_size ms m f fresh unit)
                              (append-AllFrom lib s 0 ms m g (
                                subst (λ (x : ℕ). From lib s x m) at_device
                                  (
                                    size,
                                    dev,
                                    answer.1,
                                    has_size,
                                    (λ i. (made i, answer.1))
                                        ∙ ap (λ x. (ok x, answer.1)) (sym own),
                                    sp,
                                  )))
                              (tail_row ∙ ap (λ (x : ℕ). count_up x (length ds)) more_devices)))
                  ]
            ]
      ]

  -- What the constructor comes to.
  abbrev pub Constructed : (ℕ → ℕ) → Setup → ℕ → Result VirtualMedia × Dev → Type 0
  Constructed base s n (err e, dev) =
      ((c : ℕ) → live dev c ≡ base c)
      ⊎ ((s.num_workers ≡ 0)
          × ((ms : List Manager) × (length ms ≡ n) × ((c : ℕ) → live dev c ≡ owned ms c + base c)))
  Constructed base s n (ok v, dev) =
      ((c : ℕ) → live dev c ≡ owned v.mgrs c + base c)
      × AllValid (λ d. []) v
      × (length v.mgrs ≡ n)
      × (v.placement.num_devices ≡ n)
      × (v.closed ≡ false)
      × ((d : ℕ) (m : Manager) → get_elem? v.mgrs d ≡ some m → From lib s d m)

  opened_media-Constructed :
      (base : ℕ → ℕ) (s : Setup) (n : ℕ) (placement : PositionHash)
      (p : Result (List Manager) × Dev)
      → placement.num_devices ≡ n
      → Extents base s n p
      → Constructed base s n (opened_media lib s placement p)
  unfolding opened_media check_config
  opened_media-Constructed base s n placement (err e, dev) same h = inl h
  opened_media-Constructed base s n placement (ok ms, dev) same (h, f, count, g) =
      elim (Bool-cases (s.num_workers == 0)) [
        | inl e ↦ rw (e, opened_media) (inr (ground (arith, e), (ms, count, h)))
        | inr e ↦
            rw (e, opened_media)
              (
                h,
                λ d m at. AllFresh-IsValid s.unit_size ms d m f at,
                count,
                same,
                refl,
                λ d m at.
                    subst (λ (x : ℕ). From lib s x m) (omega arith)
                      (AllFrom-From lib s 0 d ms m g at),
              )
      ]

  -- After the answer of `get_topology`.
  open_on-Constructed :
      (s : Setup) (topo : StorageTopology) (dev : Dev)
      → Constructed (live dev) s (count_ssd topo.resources) (open_on lib s topo dev)
  unfolding open_on
  open_on-Constructed s topo dev =
      let n = count_ssd topo.resources in
      elim (Bool-cases (n == 0)) [
        | inl none_online ↦ rw none_online (inl (λ c. refl))
        | inr some_online ↦ elim (Result-cases (resolve_strategy s.choice n)) [
          | inr (e, refused) ↦ rw (some_online, refused) (inl (λ c. refl))
          | inl (placement, found) ↦
              rw (some_online, found)
                (opened_media-Constructed (live dev) s n placement
                  (open_from lib s (count_up 0 n) [] dev)
                  (num_devices-resolve_strategy s.choice n placement found)
                  (subst (λ (k : ℕ). Extents (live dev) s k (open_from lib s (count_up 0 n) [] dev))
                    (omega (arith, length-count_up 0 n))
                    (open_from-Extents s (count_up 0 n) [] dev (live dev) (λ c. omega arith) tt tt
                      (ap (count_up 0) (sym (length-count_up 0 n))))))
        ]
      ]

  -- How many devices the topology has.
  abbrev pub online : Result StorageTopology → ℕ
  online (ok topo) = count_ssd topo.resources
  online (err e) = 0

  -- The library keeps an account of its chunks: an allocation adds the chunk that it returns, a failed
  -- one adds none, a chunk in use can be freed, and to ask for the topology changes nothing. Then the
  -- constructor either returns a media that owns exactly the new extents, one from each online SSD in
  -- the order of the devices, of the capacity of the device, with a well-formed manager without live
  -- units for each, a placement over as many devices, and a limit of the reads, if there is one, of
  -- whole units, one at least; or it raises and leaves no extent behind; or it raises because there are
  -- no workers, and the extents of all devices stay in use.
  pub init-Constructed :
      (get_topology : Dev → Result StorageTopology × Dev) (s : Setup) (dev : Dev)
      → ((c : ℕ) → live (get_topology dev).1 c ≡ live dev c)
      → Constructed (live dev) s (online (get_topology dev).0) (init lib get_topology s dev)
        × ReadsUnits lib (init lib get_topology s dev)
  unfolding init
  init-Constructed get_topology s dev asks =
      elim (Result-cases (check_max_read s.unit_size s.max_read_bytes)) [
        | inr (e, refused) ↦ rw refused (inl (λ c. refl), tt)
        | inl (u, good) ↦ elim (Result-cases (get_topology dev).0) [
          | inr (e, silent) ↦ rw (good, silent) (inl asks, tt)
          | inl (topo, answered) ↦
              let dev' = (get_topology dev).1 in
              rw (good, answered)
                (
                  same_base (live dev') (live dev) s (count_ssd topo.resources)
                      (open_on lib s topo dev') asks (open_on-Constructed s topo dev'),
                  AsSet-ReadsUnits lib s (open_on lib s topo dev') (checked_limit lib s good)
                      (open_on-AsSet lib s topo dev'),
                )
        ]
      ]
    where
      same_base :
          (base base' : ℕ → ℕ) (s : Setup) (n : ℕ) (r : Result VirtualMedia × Dev)
          → ((c : ℕ) → base c ≡ base' c)
          → Constructed base s n r
          → Constructed base' s n r
      same_base base base' s n (err e, dev) same (inl h) = inl (λ c. h c ∙ same c)
      same_base base base' s n (err e, dev) same (inr (idle, (ms, count, h))) =
          inr (idle, (ms, count, λ c. h c ∙ ap (λ (x : ℕ). owned ms c + x) (same c)))
      same_base base base' s n (ok v, dev) same (h, valid, count, same_n, running, from) = (
        λ c. h c ∙ ap (λ (x : ℕ). owned v.mgrs c + x) (same c),
        valid,
        count,
        same_n,
        running,
        from,
      )
