-- ===== src/VirtualMedia/Open.antt =====
-- `VirtualMedia.__init__` of bmpclient/virtual_media.py: the devices of the topology, the placement, and
-- an extent with its segment manager on each device, which are given back when one cannot be had.
-- The topology is a call of the library; a name of a strategy in the registry is that of the position
-- hash.
use ummwith_client.Prelude.{
  ℕ, ◌+◌, ◌%◌, ◌==◌, Bool, false, not, ◌&&◌, ◌||◌, Option, none, some, List, [], ◌∷◌, ◌++◌, ltb,
  if◌then◌else◌, Result, ok, err, Error, value_error, runtime_error, key_error, raise_if,
}
use ummwith_client.Prelude.Action.{Action, lift, ◌>>=◌, ◌>>◌}
use ummwith_client.Prelude.Dict.{dict_get}
use ummwith_client.Umm.{ChunkDescriptor, UmmLib}
use ummwith_client.Umm.Clib.{StorageResource, StorageTopology, umm_tier_ssd}
use ummwith_client.Strategy as Strategy
use ummwith_client.Strategy.{PositionHash, Options}
use ummwith_client.ConcurrentIo.Engine.{check_config}
use ummwith_client.Segment.Manager as Segment
use ummwith_client.Segment.Manager.{Manager, count_up}
use ummwith_client.VirtualMedia.Media.{VirtualMedia}

-- `capacity_per_device`: a number, or a dict by device.
pub data Capacity : Type 0 where
  every : ℕ → Capacity
  by_device : List (ℕ × ℕ) → Capacity

-- `strategy`: none or a name, with the options that go with it, or an object.
pub data Choice : Type 0 where
  built_with : Options → Choice
  given : PositionHash → Choice

-- The arguments, with what they leave to the configuration filled in: `sp_bytes` is `default_sp` and
-- `sp_override` the dict of that name.
pub record Setup : Type 0 where
  pub capacity : Capacity
  pub unit_size : ℕ
  pub num_workers : ℕ
  pub choice : Choice
  pub sp_bytes : ℕ
  pub sp_override : List (ℕ × ℕ)
  pub read_merge : Bool
  pub max_read_bytes : Option ℕ

-- The first check; 0 stands for a size that is not positive.
unfoldable pub check_max_read : ℕ → Option ℕ → Result (Unit {0})
check_max_read unit_size none = ok tt
check_max_read unit_size (some n) =
    raise_if (unit_size == 0 || ltb n unit_size || not (n % unit_size == 0)) value_error

-- The loop of `_list_ssd_devices`.
unfoldable pub count_ssd : List StorageResource → ℕ
count_ssd [] = 0
count_ssd (r ∷ rs) = (if r.tier == umm_tier_ssd && r.online then 1 else 0) + count_ssd rs

-- `_list_ssd_devices`
abbrev pub list_ssd_devices : StorageTopology → List ℕ
list_ssd_devices topo = count_up 0 (count_ssd topo.resources)

-- `_resolve_strategy`
unfoldable pub resolve_strategy : Choice → ℕ → Result PositionHash
resolve_strategy (built_with options) n = Strategy.init n options
resolve_strategy (given s) n = if s.num_devices == n then ok s else err value_error

abbrev pub capacity_of : Capacity → ℕ → Result ℕ
capacity_of (every n) d = ok n
capacity_of (by_device sizes) d = elim (dict_get d sizes) [ none ↦ err key_error | some n ↦ ok n ]

-- `sp_override.get(d, default_sp)`
abbrev pub super_page : Setup → ℕ → ℕ
super_page s d = elim (dict_get d s.sp_override) [ none ↦ s.sp_bytes | some n ↦ n ]

module _ (lib : UmmLib) where
  open lib use {Dev}

  -- The outer handler: the extents of the managers so far are freed, then `raise`. A free that raises
  -- ends the handler.
  unfoldable pub roll_back : List Manager → Error → Dev → Result (List Manager) × Dev
  roll_back [] e dev = (err e, dev)
  roll_back (m ∷ ms) e dev =
      let (r, dev') = lib.free m.desc dev in
      elim r [ ok _ ↦ roll_back ms e dev' | err e' ↦ (err e', dev') ]

  -- The inner handler: the new extent is freed first.
  unfoldable pub give_up :
      ChunkDescriptor → List Manager → Error → Dev → Result (List Manager) × Dev
  unfolding roll_back
  give_up desc mgrs e dev =
      let (r, dev') = lib.free desc dev in
      elim r [ ok _ ↦ roll_back mgrs e dev' | err e' ↦ roll_back mgrs e' dev' ]

  -- The loop over the devices; `mgrs` are the managers so far.
  unfoldable pub open_from : Setup → List ℕ → List Manager → Dev → Result (List Manager) × Dev
  unfolding roll_back give_up
  open_from s [] mgrs dev = (ok mgrs, dev)
  open_from s (d ∷ ds) mgrs dev = elim (capacity_of s.capacity d) [
    | err e ↦ roll_back mgrs e dev
    | ok capacity ↦
        let (r, dev') = lib.alloc_on_device capacity d dev in
        elim r [
          | err e ↦ roll_back mgrs e dev'
          | ok desc ↦ elim (Segment.init desc (super_page s d) s.unit_size) [
            | err e ↦ give_up desc mgrs e dev'
            | ok m ↦ open_from s ds (mgrs ++ m ∷ []) dev'
          ]
        ]
  ]

  -- The lines after the loop: the engine, which may refuse its configuration, then the object.
  unfoldable pub opened_media :
      Setup → PositionHash → Result (List Manager) × Dev → Result VirtualMedia × Dev
  opened_media s placement (err e, dev) = (err e, dev)
  opened_media s placement (ok mgrs, dev) =
      elim (check_config
        (record { num_workers = s.num_workers; num_queues = 1; max_inflight = none })) [
          | err e ↦ (err e, dev)
          | ok _ ↦ (
            ok (record {
              merging = record {
                unit_size = s.unit_size;
                read_merge = s.read_merge;
                max_read_bytes = s.max_read_bytes;
              };
              placement = placement;
              mgrs = mgrs;
              closed = false;
            }),
            dev,
          )
        ]

  -- What `__init__` does with the answer of `get_topology`.
  unfoldable pub open_on : Setup → StorageTopology → Action Dev VirtualMedia
  unfolding resolve_strategy open_from count_ssd opened_media
  open_on s topo = do
    let devices = list_ssd_devices topo
    lift (raise_if (count_ssd topo.resources == 0) runtime_error)
    placement ← lift (resolve_strategy s.choice (count_ssd topo.resources))
    λ dev. opened_media s placement (open_from s devices [] dev)

  -- `__init__`
  unfoldable pub init : Action Dev StorageTopology → Setup → Action Dev VirtualMedia
  unfolding check_max_read open_on
  init get_topology s = do
    lift (check_max_read s.unit_size s.max_read_bytes)
    topo ← get_topology
    open_on s topo
