-- ===== src/ConcurrentIo/Engine.antt =====
-- `ConcurrentIOEngine` of bmpclient/concurrent_io.py: the configuration, the cutting of a batch into
-- groups, and what a worker does with one group.
use ummwith_client.Prelude.{
  ℕ, suc, ◌%◌, Bool, true, false, Option, none, some, List, [], ◌∷◌, ◌++◌, ltb, ◌==◌, if◌then◌else◌,
  length, take, map, Result, ok, err, value_error, raise_if, ◌>>◌,
}
use ummwith_client.Prelude.Int.{pos_part, is_neg}
use ummwith_client.Prelude.Splice.{splice}
use ummwith_client.Umm.{Bytes, ChunkDescriptor, UmmLib}
use ummwith_client.ConcurrentIo.Handle.{IoAddress, IoRequest, Outcome}

pub record Config : Type 0 where
  pub num_workers : ℕ
  pub num_queues : ℕ
  pub max_inflight : Option ℕ

-- `x < 1`
abbrev pub too_few : Option ℕ → Bool
too_few none = false
too_few (some n) = n == 0

-- The checks of `__init__`.
unfoldable pub check_config : Config → Result (Unit {0})
check_config c = do
  raise_if (c.num_workers == 0) value_error
  raise_if (c.num_queues == 0) value_error
  raise_if (too_few c.max_inflight) value_error

-- An item of a batch: its index in the handle, the request, and whether it is a read.
pub record Item : Type 0 where
  pub idx : ℕ
  pub request : IoRequest
  pub is_read : Bool

-- `enumerate(items)`, from `i` on.
unfoldable pub enumerate : ℕ → List (IoRequest × Bool) → List Item
enumerate i [] = []
enumerate i ((r, b) ∷ rest) = record { idx = i; request = r; is_read = b } ∷ enumerate (suc i) rest

-- The items of `submit_mixed`: reads, then writes.
unfoldable pub mixed : List IoRequest → List IoRequest → List (IoRequest × Bool)
mixed reads writes = map (λ r. (r, true)) reads ++ map (λ r. (r, false)) writes

-- The key by which `_submit` cuts a batch into groups.
unfoldable pub group_key : Config → Item → ℕ
group_key c x =
    if ltb 1 c.num_queues then x.request.address.chunk_id % c.num_queues else x.idx % c.num_workers

-- The groups in the order of their first items.
abbrev pub Groups : Type 0
Groups = List (ℕ × List Item)

-- `groups[pos].append(item)`, with a new group for a new key.
unfoldable pub into_group : ℕ → Item → Groups → Groups
into_group k x [] = (k, x ∷ []) ∷ []
into_group k x ((j, items) ∷ rest) =
    if j == k then (j, items ++ x ∷ []) ∷ rest else (j, items) ∷ into_group k x rest

-- The loop of `_submit` over the items.
unfoldable pub group_all : Config → List Item → Groups → Groups
unfolding into_group
group_all c [] groups = groups
group_all c (x ∷ xs) groups = group_all c xs (into_group (group_key c x) x groups)

-- What a worker reports of a request: its outcome, and the buffer afterwards.
pub record Report : Type 0 where
  pub idx : ℕ
  pub outcome : Outcome
  pub buffer : Bytes

-- `ChunkDescriptor(chunk_id=addr.chunk_id, …)`
abbrev pub desc_at : IoAddress → ChunkDescriptor
desc_at a = record { chunk_id = a.chunk_id; base_gpa = a.base_gpa; user_size = a.user_size }

module _ (lib : UmmLib) where
  open lib use {Dev}

  abbrev pub report_read : ℕ → Bytes → ℕ → Result Bytes × Dev → Report × Dev
  report_read idx buffer n (err e, dev) =
      (record { idx = idx; outcome = err e; buffer = buffer }, dev)
  report_read idx buffer n (ok bytes, dev) =
      (record { idx = idx; outcome = ok n; buffer = splice buffer 0 bytes }, dev)

  abbrev pub report_write : ℕ → Bytes → Result ℕ × Dev → Report × Dev
  report_write idx buffer (r, dev) = (record { idx = idx; outcome = r; buffer = buffer }, dev)

  -- `_execute_one`, and the `try` round it: the checks, then the first `length` bytes of the buffer.
  unfoldable pub execute_one : Item → Dev → Report × Dev
  execute_one x dev =
      let a = x.request.address in
      let buffer = x.request.buffer in
      let n = pos_part a.nbytes in
      if is_neg a.offset
      then (record { idx = x.idx; outcome = err value_error; buffer = buffer }, dev)
      else if is_neg a.nbytes
      then (record { idx = x.idx; outcome = err value_error; buffer = buffer }, dev)
      else if ltb (length buffer) n
      then (record { idx = x.idx; outcome = err value_error; buffer = buffer }, dev)
      else if n == 0
      then (record { idx = x.idx; outcome = ok 0; buffer = buffer }, dev)
      else if x.is_read
      then report_read x.idx buffer n (lib.read_into (desc_at a) (pos_part a.offset) n dev)
      else report_write x.idx buffer
          (lib.write_from (desc_at a) (pos_part a.offset) (take n buffer) dev)

  -- `_run_group`: the requests of a group one after the other, each with its own outcome.
  unfoldable pub run_items : List Item → Dev → List Report × Dev
  unfolding execute_one
  run_items [] dev = ([], dev)
  run_items (x ∷ xs) dev =
      let (one, dev') = execute_one x dev in
      let (more, dev'') = run_items xs dev' in (one ∷ more, dev'')
