-- ===== src/VirtualMedia/Media.antt =====
-- `VirtualMedia` of bmpclient/virtual_media.py: a placement strategy over one segment manager for
-- each device. The reads go through `ConcurrentIOEngine` of bmpclient/concurrent_io.py, whose
-- requests are reads into separate buffers here; they are modelled in the order of submission.
use ummwith_client.Prelude.{
  ℕ, zero, suc, Bool, true, false, Option, none, some, List, [], ◌∷◌, ◌++◌, leb, ◌==◌,
  if◌then◌else◌, length, get_elem?, set, Result, ok, err, value_error, index_error, runtime_error,
  raise_if,
}
use ummwith_client.Prelude.Action.{Action, lift, pure, gets, ◌>>=◌, ◌>>◌}
use ummwith_client.Prelude.Int.{ℤ, nat_below}
use ummwith_client.Prelude.Splice.{splice}
use ummwith_client.Umm.{Bytes, UmmLib}
use ummwith_client.Strategy as Strategy
use ummwith_client.Strategy.{PositionHash}
use ummwith_client.Segment.Manager as Segment
use ummwith_client.Segment.Manager.{Manager}
use ummwith_client.VirtualMedia.Runs.{Item, Merging}

pub record VirtualMedia : Type 0 where
  pub merging : Merging
  pub placement : PositionHash
  pub mgrs : List Manager
  pub closed : Bool

-- `buckets.setdefault(d, []).append(item)`: the buckets keep the order of their first item.
unfoldable pub into_bucket : ℕ → Item → List (ℕ × List Item) → List (ℕ × List Item)
into_bucket d item [] = (d, item ∷ []) ∷ []
into_bucket d item ((k, items) ∷ rest) =
    if k == d then (k, items ++ item ∷ []) ∷ rest else (k, items) ∷ into_bucket d item rest

-- `group.sort(key=lambda x: x[1])`, which is stable.
unfoldable pub insert_item : Item → List Item → List Item
insert_item x [] = x ∷ []
insert_item x (y ∷ ys) = if leb x.1 y.1 then x ∷ y ∷ ys else y ∷ insert_item x ys

unfoldable pub sort_items : List Item → List Item
unfolding insert_item
sort_items [] = []
sort_items (x ∷ xs) = insert_item x (sort_items xs)

-- `outs[pos][:unit_size] = …` for each piece.
unfoldable pub copy_out : List (ℕ × Bytes) → List Bytes → List Bytes
copy_out [] outs = outs
copy_out ((pos, unit) ∷ rest) outs =
    copy_out rest
      (elim (get_elem? outs pos) [ none ↦ outs | some out ↦ set outs pos (splice out 0 unit) ])

-- First and last offset of a run.
abbrev pub run_start : List Item → ℕ
run_start [] = 0
run_start (x ∷ run) = x.1

abbrev pub run_last : List Item → ℕ
run_last [] = 0
run_last (x ∷ []) = x.1
run_last (x ∷ y ∷ run) = run_last (y ∷ run)

module _ (lib : UmmLib) where
  open lib use {Dev}

  abbrev pub State : Type 0
  State = VirtualMedia × Dev

  -- `_ensure_open`
  unfoldable pub ensure_open : Action State (Unit {0})
  ensure_open s = (raise_if s.0.closed runtime_error, s)

  -- `_check_device`, which hands the device on as a number.
  unfoldable pub check_device : ℤ → Action State ℕ
  check_device device s = (nat_below value_error device (length s.0.mgrs), s)

  -- `self._mgrs[d]`
  unfoldable pub mgr_of : ℕ → Action State Manager
  mgr_of d s = elim (get_elem? s.0.mgrs d) [ none ↦ (err index_error, s) | some m ↦ (ok m, s) ]

  abbrev pub put_back :
      {A : Type 0} → VirtualMedia → ℕ → Result A × (Manager × Dev) → Result A × State
  put_back v d (r, (m, dev)) = (r, (record v { mgrs = set v.mgrs d m }, dev))

  abbrev pub on_found :
      {A : Type 0}
      → VirtualMedia
      → Dev
      → ℕ
      → Action (Manager × Dev) A
      → Option Manager
      → Result A × State
  on_found v dev d f none = (err index_error, (v, dev))
  on_found v dev d f (some m) = put_back v d (f (m, dev))

  -- A method of `self._mgrs[d]`.
  unfoldable pub on_mgr : {A : Type 0} → ℕ → Action (Manager × Dev) A → Action State A
  on_mgr d f (v, dev) = on_found v dev d f (get_elem? v.mgrs d)

  -- `write`; a key is (layer_id, token_idx).
  unfoldable pub media_write : ℤ × ℤ → Bytes → Action State ℕ
  unfolding ensure_open on_mgr
  media_write key unit = do
    ensure_open
    v ← gets (λ s. s.0)
    d ← lift (Strategy.locate v.placement key)
    on_mgr d (Segment.append lib unit)

  -- The loop of `flush`, from device `d` on over `n` devices.
  unfoldable pub flush_from : ℕ → ℕ → Action State (Unit {0})
  unfolding on_mgr
  flush_from d zero = pure tt
  flush_from d (suc n) = on_mgr d (Segment.flush lib) >> flush_from (suc d) n

  -- `flush`
  unfoldable pub media_flush : Action State (Unit {0})
  unfolding ensure_open flush_from
  media_flush = do ensure_open; v ← gets (λ s. s.0); flush_from 0 (length v.mgrs)

  -- `is_buffered`
  unfoldable pub media_is_buffered : ℤ → ℕ → Action State Bool
  unfolding ensure_open check_device mgr_of
  media_is_buffered device offset = do
    ensure_open
    d ← check_device device
    m ← mgr_of d
    pure (Segment.is_buffered m offset)

  -- `read_buffered`, which does not ask whether the media is open.
  unfoldable pub read_buffered : ℤ → ℕ → Action State (Option Bytes)
  unfolding check_device mgr_of
  read_buffered device offset = do
    d ← check_device device
    m ← mgr_of d
    v ← gets (λ s. s.0)
    pure (Segment.read_buffer m offset v.merging.unit_size)

  -- `extent_base`: without a resolver, the place holder 0.
  unfoldable pub extent_base : ℤ → Action State ℕ
  unfolding check_device mgr_of
  extent_base device = do
    d ← check_device device
    elim lib.resolver [
      | none ↦ pure 0
      | some resolve ↦ do m ← mgr_of d; λ s. (resolve s.1 m.desc d, s)
    ]

  -- `release`
  unfoldable pub media_release : ℤ → ℕ → Action State (Unit {0})
  unfolding ensure_open check_device on_mgr
  media_release device offset = do
    ensure_open
    d ← check_device device
    on_mgr d (Segment.on_manager lib (λ m. Segment.updated lib (Segment.release m offset)))

  abbrev pub free_extents : List Manager → Action State (Unit {0})
  free_extents [] = pure tt
  free_extents (m ∷ ms) =
      (λ s. (let (r, dev) = lib.free m.desc s.1 in (r, (s.0, dev)))) >> free_extents ms

  -- `close`: the mark is set first, and a second call does nothing.
  unfoldable pub media_close : Action State (Unit {0})
  media_close (v, dev) = elim v.closed [
    | true ↦ (ok tt, (v, dev))
    | false ↦ free_extents v.mgrs (record v { closed = true }, dev)
  ]
