-- ===== src/Tests/Engines.antt =====
-- Runs and instances for the concurrent reads and writes.
use ummwith_client.Prelude.{
  ℕ, ◌≡◌, ◌+◌, ◌≤◌, ◌<◌, ◌⊎◌, refl, arith, Bool, true, false, Option, some, [], ◌∷◌, List, ok,
  length, get_elem?,
}
use ummwith_client.Prelude.Int.{pos}
use ummwith_client.ConcurrentIo.Handle.{
  IoRequest, Outcome, done, result_now, set_many, new_handle, first_failure, put_results,
}
use ummwith_client.ConcurrentIo.Engine.{
  Config, Item, group_key, into_group, enumerate, run_items, execute_one,
}
use ummwith_client.ConcurrentIo.System.{
  Stats, System, submitted, admitted, handed_over, finished, admit, hand_over, run, Reach, here,
  next,
}
use ummwith_client.ConcurrentIo.Balance.{submitted-Balanced, done_lem}
use ummwith_client.ConcurrentIo.Accounting.{Balanced}
use ummwith_client.ConcurrentIo.Progress.{
  steps, submitted_finishes, Enabled, submitted_advances, submitted_blocks,
}
use ummwith_client.Tests.Segments.{willing}

abbrev config : Config
config = record { num_workers = 1; num_queues = 1; max_inflight = some 2 }

abbrev request : ℕ → IoRequest
request n = record {
  address = record { chunk_id = n; base_gpa = 0; offset = pos 0; nbytes = pos 2; user_size = 16 };
  buffer = 1 ∷ 2 ∷ [];
}

abbrev batch : List (IoRequest × Bool)
batch = (request 4, false) ∷ (request 5, false) ∷ []

abbrev idle_stats : Stats
idle_stats = record { submitted = 0; completed = 0; failed = 0; inflight = 0 }

abbrev start : Option ℕ → System willing config
start limit = submitted willing config batch limit idle_stats 0

abbrev items : List Item
items = enumerate 0 batch

abbrev first : Item
first = record { idx = 0; request = request 4; is_read = false }

abbrev second : Item
second = record { idx = 1; request = request 5; is_read = false }

abbrev one_admitted : Option ℕ → System willing config
one_admitted limit = admitted willing config first (second ∷ []) (start limit)

abbrev all_admitted : Option ℕ → System willing config
all_admitted limit = admitted willing config second [] (one_admitted limit)

abbrev all_queued : System willing config
all_queued = handed_over willing config items [] (all_admitted (some 2))

abbrev ended : System willing config
ended = finished willing config items [] (run_items willing items 0) all_queued

-- Both requests get a permit, their group is handed over, and a worker runs it.
ended_reached : Reach willing config (start (some 2)) ended
unfolding submitted into_group group_key enumerate
ended_reached =
    next
      (next (next (next here (admit first (second ∷ []) refl refl)) (admit second [] refl refl))
        (hand_over 0 items [] refl refl))
      (run [] items [] refl)

ended_done : done ended.handle ≡ true
unfolding done set_many submitted new_handle run_items execute_one
ended_done = refl

ended_result : result_now ended.handle ≡ ok (some (ok 2) ∷ some (ok 2) ∷ [])
unfolding result_now done first_failure put_results set_many submitted new_handle run_items
    execute_one enumerate
ended_result = refl

submitted-Balanced_example : Balanced willing config (some 2) ended
submitted-Balanced_example =
    submitted-Balanced willing config (some 2) batch idle_stats 0 ended refl refl ended_reached

done_lem_example :
    ((i : ℕ) → i < 2 → (r : Outcome) × (get_elem? ended.handle.results i ≡ some (some r)))
    × (ended.permits ≡ some 2)
    × (ended.stats.inflight ≡ 0)
    × (ended.stats.submitted ≡ ended.stats.completed + ended.stats.failed)
done_lem_example =
    done_lem willing config (some 2) batch idle_stats 0 ended refl refl ended_reached ended_done

-- From the state in which the first request has its permit.
first_reached : Reach willing config (start (some 2)) (one_admitted (some 2))
unfolding submitted enumerate
first_reached = next here (admit first (second ∷ []) refl refl)

submitted_finishes_example :
    (u : System willing config) × (rest : Reach willing config (one_admitted (some 2)) u) × (done
        u.handle
      ≡ true)
    × (steps willing config (start (some 2)) (one_admitted (some 2)) first_reached
          + steps willing config (one_admitted (some 2)) u rest
        ≤ 6)
submitted_finishes_example =
    submitted_finishes willing config (some 2) batch idle_stats 0 (one_admitted (some 2))
      first_reached refl refl (omega arith)

submitted_advances_example : Enabled willing config ended ⊎ (done ended.handle ≡ true)
submitted_advances_example =
    submitted_advances willing config (some 2) batch idle_stats 0 ended refl refl (omega arith)
      ended_reached

-- With a limit of one, the second request waits for a permit that nobody gives back.
one_reached : Reach willing config (start (some 1)) (one_admitted (some 1))
unfolding submitted enumerate
one_reached = next here (admit first (second ∷ []) refl refl)

submitted_blocks_example :
    (0 < length (one_admitted (some 1)).todo)
    × ((one_admitted (some 1)).queued ≡ [])
    × ((one_admitted (some 1)).handle ≡ (start (some 1)).handle)
    × (done (one_admitted (some 1)).handle ≡ false)
submitted_blocks_example =
    submitted_blocks willing config 1 batch idle_stats 0 (one_admitted (some 1)) refl refl
      (omega arith) one_reached
