-- ===== src/ConcurrentIo/System.antt =====
-- A batch on its way through the engine of bmpclient/concurrent_io.py. The submitter takes a permit
-- for each item in turn and groups the items; then it hands the groups to the executors, which may
-- refuse; the workers run groups, and a worker returns the permits of its group at the end.
-- Which of the enabled steps comes next is open. All that a worker does for one group is one step, its
-- requests, counters, permits and results: that other threads see these one after the other is not modelled.
use ummwith_client.Prelude.{
  ℕ, ◌+◌, ◌-◌, ◌≡◌, Bool, true, Option, none, some, List, [], ◌∷◌, ◌++◌, ltb, length, get_elem?,
  set, map, ok, err, Error,
}
use ummwith_client.Umm.{UmmLib}
use ummwith_client.ConcurrentIo.Handle.{IoRequest, IoHandle, Outcome, new_handle, set_many}
use ummwith_client.ConcurrentIo.Engine.{
  Config, Item, Groups, Report, enumerate, group_key, into_group, run_items,
}

-- The free permits; `none` is an engine without a limit.
abbrev pub Permits : Type 0
Permits = Option ℕ

-- `acquire` can go on.
abbrev pub can_acquire : Permits → Bool
can_acquire none = true
can_acquire (some n) = ltb 0 n

abbrev pub acquire : Permits → Permits
acquire none = none
acquire (some n) = some (n - 1)

abbrev pub release_permits : ℕ → Permits → Permits
release_permits k none = none
release_permits k (some n) = some (n + k)

-- The counters of `stats`.
pub record Stats : Type 0 where
  pub submitted : ℕ
  pub completed : ℕ
  pub failed : ℕ
  pub inflight : ℕ

unfoldable pub count_ok : List Report → ℕ
count_ok [] = 0
count_ok (r ∷ rs) = (elim r.outcome [ ok n ↦ 1 | err e ↦ 0 ]) + count_ok rs

-- The buffers that the reports name take their new content.
unfoldable pub fill_buffers : List Report → List IoRequest → List IoRequest
fill_buffers [] requests = requests
fill_buffers (r ∷ rs) requests = fill_buffers rs (elim (get_elem? requests r.idx) [
  | none ↦ requests
  | some q ↦ set requests r.idx (record q { buffer = r.buffer })
])

abbrev pub pairs_of : List Report → List (ℕ × Outcome)
pairs_of [] = []
pairs_of (r ∷ rs) = (r.idx, r.outcome) ∷ pairs_of rs

abbrev pub all_refused : Error → List Item → List (ℕ × Outcome)
all_refused e [] = []
all_refused e (x ∷ xs) = (x.idx, err e) ∷ all_refused e xs

module _ (lib : UmmLib) (c : Config) where
  open lib use {Dev}

  -- `todo`: the items without a permit yet; `groups`: grouped, not handed over; `queued`: with the
  -- executors.
  pub record System : Type 0 where
    pub todo : List Item
    pub groups : Groups
    pub queued : List (List Item)
    pub permits : Permits
    pub handle : IoHandle
    pub stats : Stats
    pub dev : Dev

  -- The start of `_submit`.
  unfoldable pub submitted : List (IoRequest × Bool) → Permits → Stats → Dev → System
  unfolding enumerate new_handle
  submitted items permits stats dev = record {
    todo = enumerate 0 items;
    groups = [];
    queued = [];
    permits = permits;
    handle = new_handle (map (λ (x : IoRequest × Bool). x.0) items);
    stats = stats;
    dev = dev;
  }

  -- One round of the first loop of `_submit`.
  abbrev pub admitted : Item → List Item → System → System
  admitted x rest s = record s {
    todo = rest;
    groups = into_group (group_key c x) x s.groups;
    permits = acquire s.permits;
    stats = record s.stats { submitted = s.stats.submitted + 1; inflight = s.stats.inflight + 1 };
  }

  -- One round of the second loop, when the executor takes the group.
  abbrev pub handed_over : List Item → Groups → System → System
  handed_over items rest s = record s { groups = rest; queued = s.queued ++ items ∷ [] }

  -- The same, when `executor.submit` raises.
  abbrev pub refused : Error → List Item → Groups → System → System
  refused e items rest s = record s {
    groups = rest;
    permits = release_permits (length items) s.permits;
    handle = set_many (all_refused e items) s.handle;
    stats = record s.stats {
      submitted = s.stats.submitted - length items;
      inflight = s.stats.inflight - length items;
    };
  }

  -- The end of `_run_group`.
  abbrev pub finished : List Item → List (List Item) → List Report × Dev → System → System
  finished items rest (reports, dev') s = record s {
    queued = rest;
    permits = release_permits (length items) s.permits;
    handle =
        set_many (pairs_of reports)
          (record s.handle { requests = fill_buffers reports s.handle.requests });
    stats = record s.stats {
      completed = s.stats.completed + count_ok reports;
      failed = s.stats.failed + (length reports - count_ok reports);
      inflight = s.stats.inflight - length items;
    };
    dev = dev';
  }

  pub data Step (s : System) : System → Type 0 where
    admit :
        (x : Item) (rest : List Item)
        → s.todo ≡ x ∷ rest
        → can_acquire s.permits ≡ true
        → Step s (admitted x rest s)
    hand_over :
        (k : ℕ) (items : List Item) (rest : Groups)
        → s.todo ≡ []
        → s.groups ≡ (k, items) ∷ rest
        → Step s (handed_over items rest s)
    refuse :
        (e : Error) (k : ℕ) (items : List Item) (rest : Groups)
        → s.todo ≡ []
        → s.groups ≡ (k, items) ∷ rest
        → Step s (refused e items rest s)
    run :
        (before : List (List Item)) (items : List Item) (after : List (List Item))
        → s.queued ≡ before ++ items ∷ after
        → Step s (finished items (before ++ after) (run_items lib items s.dev) s)

  pub data Reach (s : System) : System → Type 0 where
    here : Reach s s
    next : {t u : System} → Reach s t → Step t u → Reach s u
