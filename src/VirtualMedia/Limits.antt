-- ===== src/VirtualMedia/Limits.antt =====
-- The limit of the reads that the constructor of bmpclient/virtual_media.py accepts.
use ummwith_client.Prelude.{
  some, sym, ◌≤◌, ◌%◌, ℕ, inl, inr, ◌≡◌, refl, ap, subst, ◌∙◌, ◌==◌, List, [], arith, Bool-cases,
  Result, Result-cases, ok, err,
}
use ummwith_client.Umm.{UmmLib}
use ummwith_client.Umm.Clib.{StorageTopology}
use ummwith_client.Strategy.{PositionHash}
use ummwith_client.Segment.Manager.{Manager, count_up}
use ummwith_client.ConcurrentIo.Engine.{check_config}
use ummwith_client.VirtualMedia.Media.{VirtualMedia}
use ummwith_client.VirtualMedia.Open.{
  check_max_read, Setup, count_ssd, resolve_strategy, open_from, opened_media, open_on,
}

module _ (lib : UmmLib) where
  open lib use {Dev}

  -- The media reads no less than a unit at once, and whole units.
  abbrev pub ReadsUnits : Result VirtualMedia × Dev → Type 0
  ReadsUnits (err e, dev) = Unit
  ReadsUnits (ok v, dev) =
      (n : ℕ)
      → v.merging.max_read_bytes ≡ some n
      → (v.merging.unit_size ≤ n) × (n % v.merging.unit_size ≡ 0)

  -- The options of the reads are those of the arguments.
  unfoldable pub AsSet : Setup → Result VirtualMedia × Dev → Type 0
  AsSet s (err e, dev) = Unit
  AsSet s (ok v, dev) =
      (v.merging.unit_size ≡ s.unit_size) × (v.merging.max_read_bytes ≡ s.max_read_bytes)

  opened_media-AsSet :
      (s : Setup) (placement : PositionHash) (p : Result (List Manager) × Dev)
      → AsSet s (opened_media lib s placement p)
  unfolding opened_media check_config AsSet
  opened_media-AsSet s placement (err e, dev) = tt
  opened_media-AsSet s placement (ok ms, dev) = elim (Bool-cases (s.num_workers == 0)) [
    | inl e ↦ rw (e, opened_media) tt
    | inr e ↦ rw (e, opened_media) (refl, refl)
  ]

  pub open_on-AsSet :
      (s : Setup) (topo : StorageTopology) (dev : Dev) → AsSet s (open_on lib s topo dev)
  unfolding open_on AsSet
  open_on-AsSet s topo dev =
      let n = count_ssd topo.resources in
      elim (Bool-cases (n == 0)) [
        | inl none_online ↦ rw none_online tt
        | inr some_online ↦ elim (Result-cases (resolve_strategy s.choice n)) [
          | inr (e, refused) ↦ rw (some_online, refused) tt
          | inl (placement, found) ↦
              rw (some_online, found)
                (opened_media-AsSet s placement (open_from lib s (count_up 0 n) [] dev))
        ]
      ]

  pub AsSet-ReadsUnits :
      (s : Setup) (r : Result VirtualMedia × Dev)
      → ((n : ℕ) → s.max_read_bytes ≡ some n → (s.unit_size ≤ n) × (n % s.unit_size ≡ 0))
      → AsSet s r
      → ReadsUnits r
  unfolding AsSet
  AsSet-ReadsUnits s (err e, dev) limit same = tt
  AsSet-ReadsUnits s (ok v, dev) limit (unit, most) = λ n h.
      let (large, whole) = limit n (sym most ∙ h) in
      subst (λ (u : ℕ). (u ≤ n) × (n % u ≡ 0)) (sym unit) (large, whole)

  pub checked_limit :
      (s : Setup)
      → check_max_read s.unit_size s.max_read_bytes ≡ ok tt
      → (n : ℕ) → s.max_read_bytes ≡ some n
      → (s.unit_size ≤ n) × (n % s.unit_size ≡ 0)
  unfolding check_max_read
  checked_limit s h n e =
      let some_limit : check_max_read s.unit_size (some n) ≡ ok tt =
        ap (check_max_read s.unit_size) (sym e) ∙ h in
      (ground (arith, some_limit), ground (arith, some_limit))
