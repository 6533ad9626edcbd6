-- ===== src/Tests/Replays.antt =====
-- Runs and instances for the replays: the geometry of a trace, the miss traces and the pool.
use ummwith_client.Prelude.{
  ℕ, ◌+◌, ◌≤◌, ◌<◌, ◌≡◌, ◌≢◌, refl, true, false, Bool, none, some, List, [], ◌∷◌, ok, err,
  value_error, ltb, ◌==◌, ◌&&◌, if◌then◌else◌, arith, replicate, inl, inr, ap, Bool-cases,
}
use ummwith_client.Prelude.Int.{pos}
use ummwith_client.Prelude.Ensures.{Ensures}
use ummwith_client.Prelude.Dict.{dict_get, dict_set}
use ummwith_client.Prelude.SortedSet.{sorted_set, insert_token}
use ummwith_client.Bench.Trace.{truth, int, text, scalar, Record, grow, insert_key, update_key}
use ummwith_client.Umm.{ChunkDescriptor}
use ummwith_client.Bench.Geometry.{
  online, snapshot, geometry, enter, enter_all, add_slots, round_up, final_slots, sum_slots,
  round_slots,
}
use ummwith_client.Bench.Room.{Planned, geometry-Planned}
use ummwith_client.Bench.Order.{error_of, keeps_order, geometry-keeps_order}
use ummwith_client.Bench.MissTrace.{
  validate_miss_trace, check_misses, check_miss, add_setting, only_setting, warmup_field,
  count_field, strategy_field,
}
use ummwith_client.Bench.Verdict.{Verdict, validate_miss_trace-Verdict}
use ummwith_client.Bench.DirectPool.{NativePool, Window}
use ummwith_client.Bench.DirectPool as Direct
use ummwith_client.Bench.PoolClient as PoolClient
use ummwith_client.Bench.PoolClient.{
  Client, call_alloc, call_free, call_read, calls, resolve_ssd_extent_base, io_place,
}
use ummwith_client.Bench.Extents.{one_range, uses}
use ummwith_client.Bench.Accounts.{calls_account}
use ummwith_client.Bench.Windows.{io_place-resolve}
use ummwith_client.Tests.Traces.{trace}

geometry-Planned_example : Ensures (Planned 8192 trace.records) (geometry 8192 online trace.records)
geometry-Planned_example = geometry-Planned 8192 online trace.records (omega arith)

-- The second record of request 2 and layer 0 has a longer context: the trace is in order.
geometry_run :
    geometry 8192 online trace.records
    ≡ ok (((1, 3), 4) ∷ ((2, 0), 7) ∷ [], (2, 32768) ∷ (1, 16384) ∷ [])
unfolding geometry enter_all enter add_slots round_up final_slots sum_slots round_slots grow
    insert_key update_key dict_get dict_set
geometry_run = refl

geometry-keeps_order_example :
    (error_of (geometry 8192 online trace.records)
      ≡ (if keeps_order trace.records then none else some value_error))
    × (error_of (geometry 8192 snapshot trace.records) ≡ none)
geometry-keeps_order_example = geometry-keeps_order 8192 trace.records

-- A batch of 5 selected tokens, of which 2 are misses.
abbrev miss : ℕ → Record
miss capacity = record {
  request_id = 1;
  step_id = 0;
  layer_id = 0;
  context_length = 9;
  indices = 4 ∷ 6 ∷ [];
  fields = record {
    request_id = none;
    step_id = none;
    layer_id = none;
    context_length = none;
    topk_token_indices = none;
    warmup = some (scalar (truth false));
    selected = some (scalar (int (pos 5)));
    cache_hits = some (scalar (int (pos 2)));
    fresh_hits = some (scalar (int (pos 1)));
    misses = some (scalar (int (pos 2)));
    replacements = some (scalar (int (pos 0)));
    cache_capacity = some (scalar (int (pos capacity)));
    cache_strategy = some (scalar (text 8));
  };
}

miss_run :
    (validate_miss_trace (7 ∷ 8 ∷ 9 ∷ []) (miss 4096 ∷ []) ≡ ok (4096, 8))
    × (validate_miss_trace (7 ∷ 8 ∷ 9 ∷ []) (miss 4096 ∷ miss 2048 ∷ []) ≡ err value_error)
unfolding validate_miss_trace check_misses check_miss add_setting only_setting warmup_field
    count_field strategy_field sorted_set insert_token
miss_run = (refl, refl)

validate_miss_trace-Verdict_example :
    Verdict
      (7 ∷ 8 ∷ 9 ∷ [])
      (miss 4096 ∷ [])
      (validate_miss_trace (7 ∷ 8 ∷ 9 ∷ []) (miss 4096 ∷ []))
validate_miss_trace-Verdict_example = validate_miss_trace-Verdict (7 ∷ 8 ∷ 9 ∷ []) (miss 4096 ∷ [])

-- A pool that hands out ranges one after the other, of which it keeps those that are allocated. The range
-- that is freed must be one of them.
abbrev Held : Type 0
Held = ℕ × List (ℕ × ℕ)

times : List (ℕ × ℕ) → ℕ × ℕ → ℕ
times [] r = 0
times (s ∷ rest) r = one_range s r + times rest r

same_range : ℕ × ℕ → ℕ × ℕ → Bool
same_range (a, b) (c, d) = (a == c) && (b == d)

without_one : ℕ × ℕ → List (ℕ × ℕ) → List (ℕ × ℕ)
without_one r [] = []
without_one r (s ∷ rest) = if same_range r s then rest else s ∷ without_one r rest

held : Held → ℕ × ℕ → ℕ
held (next, ranges) r = times ranges r

abbrev native : NativePool
native = record {
  Pool = Held;
  add_device = λ target base size pool. (0, pool);
  alloc_on_device = λ d size pool. ((0, pool.0), (pool.0 + size, (pool.0, size) ∷ pool.1));
  free = λ offset size pool.
      if ltb 0 (held pool (offset, size))
      then (0, (pool.0, without_one (offset, size) pool.1))
      else (1, pool);
  pwrite = λ offset bytes pool. (0, pool);
  pread = λ offset size pool. ((0, replicate size 0), pool);
  sync = λ offset size pool. (0, pool);
  direct_stats = λ d pool. (
    0,
    record {
      read_calls = 0;
      write_calls = 0;
      read_bytes = 0;
      write_bytes = 0;
      bounce_bytes = 0;
      alignment = 4096;
      window_base = 1000;
    },
  );
  destroy = λ pool. (0, []);
}

times-without_one :
    (s r : ℕ × ℕ) (ranges : List (ℕ × ℕ))
    → 0 < times ranges s
    → one_range s r + times (without_one s ranges) r ≡ times ranges r
unfolding times without_one same_range
times-without_one s r [] h = absurd (omega arith)
times-without_one (a, b) r ((c, d) ∷ rest) h = elim (Bool-cases ((a == c) && (b == d))) [
  | inl e ↦
      let first : a ≡ c = ground (arith, e) in
      let second : b ≡ d = ground (arith, e) in
      rw e (ap (λ (x : ℕ). x + times rest r) (λ i. one_range (first i, second i) r))
  | inr e ↦
      let differs : one_range (c, d) (a, b) ≡ 0 = ground (arith, e) in
      rw e (omega (arith, times-without_one (a, b) r rest (omega (arith, h, differs))))
]

abbrev client : Client Held
client = record {
  pool = (100, []);
  reservations = (0, 100) ∷ [];
  window_bases = 1000 ∷ [];
  live = [];
  next_id = 1;
}

made : PoolClient.init native ((0, 100) ∷ []) (100, (0, 100) ∷ []) ≡ (ok client, (100, []))
unfolding PoolClient.init PoolClient.free_windows PoolClient.bases_from Direct.stats held times
    without_one same_range
made = refl

forgotten :
    (o n : ℕ) (pool : Held)
    → 0 < held pool (o, n)
    → (native.free o n pool).0 ≡ 0
    → (r : ℕ × ℕ) → one_range (o, n) r + held (native.free o n pool).1 r ≡ held pool r
unfolding held
forgotten o n (next, ranges) h e r =
    let there : ltb 0 (times ranges (o, n)) ≡ true = ground (arith, h) in
    rw there (times-without_one (o, n) r ranges h)

refused :
    (o n : ℕ) (pool : Held)
    → (native.free o n pool).0 ≢ 0
    → (r : ℕ × ℕ) → held (native.free o n pool).1 r ≡ held pool r
refused o n pool e r = elim (Bool-cases (ltb 0 (held pool (o, n)))) [
  | inl there ↦ absurd (e (rw there refl))
  | inr absent ↦ rw absent refl
]

abbrev some_calls : List (PoolClient.Call native)
some_calls =
    call_alloc 40 0
    ∷ call_alloc 30 0
    ∷ call_free (record { chunk_id = 1; base_gpa = 100; user_size = 40 })
    ∷ []

calls_account_example :
    held (calls native some_calls client).pool (140, 30)
    ≡ uses (calls native some_calls client).live (140, 30) + 0
unfolding held times
calls_account_example =
    calls_account native held (λ d n pool e r. refl) (λ d n pool e r. absurd (e refl)) forgotten
      refused (λ o n pool r. refl) (λ o bytes pool r. refl) ((0, 100) ∷ []) (100, (0, 100) ∷ [])
      (100, []) client some_calls (140, 30) made

abbrev two_windows : List Window
two_windows =
    record { target = 1; base = 0; size = 60 } ∷ record { target = 2; base = 0; size = 40 } ∷ []

abbrev one_window : Window
one_window = record { target = 0; base = 0; size = 90 }

-- An extent at 60 of the pool, in the second window, which begins at 5000 on its device.
abbrev placed : Client Held
placed = record {
  pool = (0, []);
  reservations = (0, 50) ∷ (50, 100) ∷ [];
  window_bases = 1000 ∷ 5000 ∷ [];
  live = (3, (60, 20)) ∷ [];
  next_id = 4;
}

abbrev extent : ChunkDescriptor
extent = record { chunk_id = 3; base_gpa = 60; user_size = 20 }

resolved : resolve_ssd_extent_base placed extent 1 ≡ ok 5010
unfolding resolve_ssd_extent_base dict_get
resolved = refl

found : io_place native placed extent 8 4 ≡ ok 68
unfolding io_place dict_get
found = refl

io_place-resolve_example : (68 + 5000 ≡ 5010 + 8 + 50) × (5000 ≤ 5010) × (5010 + 8 + 4 ≤ 5000 + 100)
io_place-resolve_example =
    io_place-resolve native placed extent 1 8 4 50 100 5000 5010 68 refl refl resolved found
