-- ===== src/Segment/Manager.antt =====
-- `DeviceSegmentManager` of bmpclient/_vm_segment.py.
use ummwith_client.Prelude.{
  ℕ, zero, suc, ◌+◌, ◌-◌, ◌*◌, ◌/◌, ◌%◌, Bool, true, false, not, Option, none, some, List, [], ◌∷◌,
  Result, ok, err, value_error, runtime_error, segment_full, type_error, raise_if, ◌==◌,
  if◌then◌else◌, length, get_elem?, set, replicate, index_error,
}
use ummwith_client.Prelude.Action.{Action, lift, gets, ◌>>=◌, ◌>>◌}
use ummwith_client.Prelude.Int.{ℤ, pos, negsuc, ◌+ℤ◌}
use ummwith_client.Prelude.Splice.{splice, slice}
use ummwith_client.Umm.{Bytes, ChunkDescriptor, UmmLib}
use ummwith_client.Segment.Geometry.{check_segment_geometry}

-- `free` is Python's list with its end first: `pop` takes the head.
pub record Manager : Type 0 where
  pub desc : ChunkDescriptor
  pub sp_bytes : ℕ
  pub unit_size : ℕ
  pub slots_per_seg : ℕ
  pub n_seg : ℕ
  pub free : List ℕ
  pub refcount : List ℤ
  pub buf : Option Bytes
  pub buf_seg : Option ℕ
  pub buf_fill : ℕ

-- `list(range(n - 1, -1, -1))` with its end first: 0, 1, …
abbrev pub count_up : ℕ → ℕ → List ℕ
count_up from zero = []
count_up from (suc n) = from ∷ count_up (suc from) n

-- The fields that `__init__` sets, once the sizes are checked.
unfoldable pub built : ChunkDescriptor → ℕ → ℕ → Manager
built desc sp_bytes unit_size =
    let n_seg = desc.user_size / sp_bytes in
    record {
      desc = desc;
      sp_bytes = sp_bytes;
      unit_size = unit_size;
      slots_per_seg = sp_bytes / unit_size;
      n_seg = n_seg;
      free = count_up 0 n_seg;
      refcount = replicate n_seg (pos 0);
      buf = none;
      buf_seg = none;
      buf_fill = 0;
    }

-- `__init__`
unfoldable pub init : ChunkDescriptor → ℕ → ℕ → Result Manager
init desc sp_bytes unit_size = elim (check_segment_geometry sp_bytes unit_size) [
  | err e ↦ err e
  | ok _ ↦
      if not (desc.user_size % sp_bytes == 0)
      then err value_error
      else ok (built desc sp_bytes unit_size)
]

-- `segment_of`
abbrev pub segment_of : Manager → ℕ → ℕ
segment_of m offset = offset / m.sp_bytes

-- `self._refcount[seg] += d`
abbrev pub add_ref : Manager → ℕ → ℤ → Result Manager
add_ref m seg d = elim (get_elem? m.refcount seg) [
  | none ↦ err index_error
  | some n ↦ ok (record m { refcount = set m.refcount seg (n +ℤ d) })
]

-- `seg == self._buf_seg`
abbrev pub is_current : Manager → ℕ → Bool
is_current m seg = elim m.buf_seg [ none ↦ false | some current ↦ seg == current ]

-- The object after `_start_segment` has taken `seg` from the pool.
abbrev pub opened : Manager → ℕ → List ℕ → Manager
opened m seg rest = record m {
  free = rest;
  buf_seg = some seg;
  buf = some (replicate m.sp_bytes 0);
  buf_fill = 0;
}

-- `_start_segment`
unfoldable pub start_segment : Manager → Result Manager
start_segment m = elim m.free [ [] ↦ err segment_full | seg ∷ rest ↦ ok (opened m seg rest) ]

-- The lines of `_flush_locked` after the write: drop the buffer, and pool an unused segment.
unfoldable pub drop_buffer : Manager → ℕ → Result Manager
drop_buffer m seg = elim (get_elem? m.refcount seg) [
  | none ↦ err index_error
  | some n ↦ ok (record m {
    buf = none;
    buf_seg = none;
    buf_fill = 0;
    free = elim n [ pos k ↦ (if k == 0 then seg ∷ m.free else m.free) | negsuc k ↦ m.free ];
  })
]

-- The lines of `append` that put the unit into the open buffer.
unfoldable pub place : Bytes → Manager → Result (ℕ × Manager)
place unit m = elim m.buf_seg [
  | none ↦ err type_error
  | some seg ↦ elim m.buf [
    | none ↦ err type_error
    | some buf ↦
        let start = m.buf_fill * m.unit_size in
        let filled = record m { buf = some (splice buf start unit); buf_fill = m.buf_fill + 1 } in
        elim (add_ref filled seg (pos 1)) [
          | err e ↦ err e
          | ok m' ↦ ok (seg * m.sp_bytes + m.buf_fill * m.unit_size, m')
        ]
  ]
]

-- `is_buffered`
unfoldable pub is_buffered : Manager → ℕ → Bool
is_buffered m offset = elim m.buf [ none ↦ false | some _ ↦ is_current m (segment_of m offset) ]

-- `read_buffer`
unfoldable pub read_buffer : Manager → ℕ → ℕ → Option Bytes
read_buffer m offset size = elim m.buf [
  | none ↦ none
  | some buf ↦ elim m.buf_seg [
    | none ↦ none
    | some seg ↦
        if segment_of m offset == seg
        then some (slice buf (offset - seg * m.sp_bytes) size)
        else none
  ]
]

-- `_refcount[seg] <= 0`
abbrev pub none_left : ℤ → Bool
none_left (pos n) = n == 0
none_left (negsuc n) = true

-- The segment returns to the pool with its last unit.
abbrev pub pool_if_unused : Manager → ℕ → ℤ → Manager
pool_if_unused m seg (pos n) = if n == 0 then record m { free = seg ∷ m.free } else m
pool_if_unused m seg (negsuc n) = m

-- `release`
unfoldable pub release : Manager → ℕ → Result Manager
release m offset =
    let seg = segment_of m offset in
    if is_current m seg then add_ref m seg (negsuc 0) else elim (get_elem? m.refcount seg) [
      | none ↦ err index_error
      | some n ↦
          if none_left n
          then err runtime_error
          else let left = n +ℤ negsuc 0 in
            ok (pool_if_unused (record m { refcount = set m.refcount seg left }) seg left)
    ]

module _ (lib : UmmLib) where
  open lib use {Dev, write_from}

  -- A method's state: the object and the devices.
  abbrev pub State : Type 0
  State = Manager × Dev

  -- A step on the object alone: if it raises, nothing has changed.
  abbrev pub settle : {A : Type 0} → State → Result (A × Manager) → Result A × State
  settle (m, dev) (ok (a, m')) = (ok a, (m', dev))
  settle (m, dev) (err e) = (err e, (m, dev))

  abbrev pub on_manager : {A : Type 0} → (Manager → Result (A × Manager)) → Action State A
  on_manager f s = settle s (f s.0)

  abbrev pub updated : Result Manager → Result (Unit {0} × Manager)
  updated (ok m) = ok (tt, m)
  updated (err e) = err e

  abbrev pub after_write : Manager → ℕ → Result ℕ × Dev → Result (Unit {0}) × State
  after_write m seg (err e, dev) = (err e, (m, dev))
  after_write m seg (ok _, dev) = on_manager (λ m'. updated (drop_buffer m' seg)) (m, dev)

  -- `_flush_locked`: the whole segment in one write. Without a buffer it is not called.
  unfoldable pub flush_locked : Action State (Unit {0})
  flush_locked (m, dev) = elim m.buf_seg [
    | none ↦ (err type_error, (m, dev))
    | some seg ↦ elim m.buf [
      | none ↦ (err type_error, (m, dev))
      | some buf ↦ after_write m seg (write_from m.desc (seg * m.sp_bytes) buf dev)
    ]
  ]

  -- `flush`
  unfoldable pub flush : Action State (Unit {0})
  flush (m, dev) = elim m.buf [
    | none ↦ (ok tt, (m, dev))
    | some _ ↦ if m.buf_fill == 0 then (ok tt, (m, dev)) else flush_locked (m, dev)
  ]

  abbrev pub start : Action State (Unit {0})
  start = on_manager (λ m. updated (start_segment m))

  -- `if self._buf is None: self._start_segment()`
  unfoldable pub open_buffer : Action State (Unit {0})
  open_buffer (m, dev) = elim m.buf [ none ↦ start (m, dev) | some _ ↦ (ok tt, (m, dev)) ]

  -- `if self._buf_fill == self._slots_per_seg: …`
  unfoldable pub roll_over : Action State (Unit {0})
  roll_over (m, dev) =
      if m.buf_fill == m.slots_per_seg then (flush_locked >> start) (m, dev) else (ok tt, (m, dev))

  -- `append`
  unfoldable pub append : Bytes → Action State ℕ
  append unit = do
    m ← gets (λ s. s.0)
    lift (raise_if (not (length unit == m.unit_size)) value_error)
    open_buffer
    roll_over
    on_manager (place unit)
