-- ===== src/VirtualMedia/Batch.antt =====
-- `read_batch` of bmpclient/virtual_media.py, and what `_run_group` and `_execute_one` of
-- bmpclient/concurrent_io.py do for it. The requests fill separate buffers and do not write to the
-- devices; they run here in the order of submission. What a failed request leaves in its own
-- staging buffer is not modelled: `read_batch` does not look at it.
use ummwith_client.Prelude.{
  ℕ, suc, ◌+◌, ◌-◌, not, none, some, List, [], ◌∷◌, ◌++◌, ltb, ◌==◌, if◌then◌else◌, length,
  get_elem?, map, Result, ok, err, value_error, index_error, raise_if,
}
use ummwith_client.Prelude.Action.{Action, lift, pure, gets, modify, ◌>>=◌, ◌>>◌}
use ummwith_client.Prelude.Int.{ℤ}
use ummwith_client.Umm.{Bytes, ChunkDescriptor, UmmLib}
use ummwith_client.Segment.Manager as Segment
use ummwith_client.VirtualMedia.Runs.{Item, Merging, merge_runs}
use ummwith_client.VirtualMedia.Staging.{pieces}
use ummwith_client.VirtualMedia.Media.{
  State, into_bucket, sort_items, copy_out, run_start, run_last, ensure_open, check_device, mgr_of,
}

-- `IORequest` for one run: the extent, the offset and the length; and the run itself.
pub record Request : Type 0 where
  pub desc : ChunkDescriptor
  pub start : ℕ
  pub nbytes : ℕ
  pub run : List Item

-- The request of a run.
abbrev pub request_of : ℕ → ChunkDescriptor → List Item → Request
request_of unit desc run = record {
  desc = desc;
  start = run_start run;
  nbytes = run_last run + unit - run_start run;
  run = run;
}

-- The list of the buffers, if no request failed; else the first failure, as `result` raises it.
unfoldable pub all_or_first : List (Result Bytes) → Result (List Bytes)
all_or_first [] = ok []
all_or_first (err e ∷ rest) = err e
all_or_first (ok bytes ∷ rest) = elim (all_or_first rest) [
  | err e ↦ err e
  | ok more ↦ ok (bytes ∷ more)
]

-- The loop over `staged`.
unfoldable pub copy_staged : ℕ → List Request → List Bytes → List Bytes → List Bytes
unfolding pieces copy_out
copy_staged unit [] staged outs = outs
copy_staged unit (r ∷ rs) [] outs = outs
copy_staged unit (r ∷ rs) (staging ∷ staged) outs =
    copy_staged unit rs staged (copy_out (pieces unit staging r.start r.run) outs)

module _ (lib : UmmLib) where
  open lib use {Dev}

  -- The buffers of the caller beside the media.
  abbrev pub BatchState : Type 0
  BatchState = State lib × List Bytes

  abbrev pub media : {A : Type 0} → Action (State lib) A → Action BatchState A
  media f (s, outs) = let (r, s') = f s in (r, (s', outs))

  -- The first loop: units in the write buffers are copied, the others go into their buckets.
  unfoldable pub scan :
      ℕ → ℕ → List (ℤ × ℕ) → List (ℕ × List Item) → Action BatchState (List (ℕ × List Item))
  unfolding copy_out into_bucket
  scan unit pos [] buckets = pure buckets
  scan unit pos ((device, off) ∷ items) buckets = do
    d ← media (check_device lib device)
    outs ← gets (λ s. s.1)
    out ← lift (elim (get_elem? outs pos) [ none ↦ err index_error | some out ↦ ok out ])
    lift (raise_if (ltb (length out) unit) value_error)
    m ← media (mgr_of lib d)
    elim (Segment.read_buffer m off unit) [
      | none ↦ scan unit (suc pos) items (into_bucket d (pos, off) buckets)
      | some bytes ↦
          modify (λ s. (s.0, copy_out ((pos, bytes) ∷ []) s.1)) >> scan unit (suc pos) items buckets
    ]

  -- The second loop: the requests of each bucket, sorted and merged.
  unfoldable pub requests : Merging → List (ℕ × List Item) → Action (State lib) (List Request)
  unfolding sort_items
  requests c [] = pure []
  requests c ((d, group) ∷ buckets) = do
    m ← mgr_of lib d
    rest ← requests c buckets
    pure (map (request_of c.unit_size m.desc) (merge_runs c (sort_items group)) ++ rest)

  -- `_execute_one` for a read.
  unfoldable pub execute_read : Request → Action Dev Bytes
  execute_read r dev =
      if r.nbytes == 0 then (ok [], dev) else lib.read_into r.desc r.start r.nbytes dev

  -- Each request has its own outcome.
  unfoldable pub execute_all : List Request → Dev → List (Result Bytes) × Dev
  unfolding execute_read
  execute_all [] dev = ([], dev)
  execute_all (r ∷ rs) dev =
      let (one, dev') = execute_read r dev in
      let (more, dev'') = execute_all rs dev' in (one ∷ more, dev'')

  -- The engine's `read_batch`.
  unfoldable pub engine_read_batch : List Request → Action (State lib) (List Bytes)
  unfolding all_or_first execute_all
  engine_read_batch rs (v, dev) =
      let (outcomes, dev') = execute_all rs dev in (all_or_first outcomes, (v, dev'))

  -- `read_batch`
  unfoldable pub read_batch : List (ℤ × ℕ) → Action BatchState (Unit {0})
  unfolding ensure_open scan requests engine_read_batch copy_staged
  read_batch items = do
    media (ensure_open lib)
    s ← gets (λ s. s)
    lift (raise_if (not (length items == length s.1)) value_error)
    let c = s.0.0.merging
    buckets ← scan c.unit_size 0 items []
    rs ← media (requests c buckets)
    staged ← media (engine_read_batch rs)
    modify (λ s'. (s'.0, copy_staged c.unit_size rs staged s'.1))
