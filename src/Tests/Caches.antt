-- ===== src/Tests/Caches.antt =====
-- Runs and instances for the cache of scripts/ppa_selection.py.
use ummwith_client.Prelude.{ℕ, ◌≡◌, refl, [], ◌∷◌, ok, err, value_error}
use ummwith_client.Prelude.SortedSet.{member, sorted_set, insert_token, Ascending}
use ummwith_client.Ppa.BatchLru.{commit, pop_all, evict, set_rows}
use ummwith_client.Ppa.Commits.{Committed, commit-Committed}

-- 5 is a hit, 1 and 9 are misses, and the oldest row goes.
commit_run : commit 4 (9 ∷ 5 ∷ 1 ∷ 9 ∷ []) (3 ∷ 5 ∷ 8 ∷ []) ≡ ok (8 ∷ 1 ∷ 5 ∷ 9 ∷ [])
unfolding commit sorted_set insert_token pop_all evict set_rows
commit_run = refl

commit_refused : commit 2 (9 ∷ 5 ∷ 1 ∷ []) [] ≡ err value_error
unfolding commit sorted_set insert_token pop_all evict set_rows
commit_refused = refl

commit-Committed_example :
    Ascending (sorted_set (9 ∷ 5 ∷ 1 ∷ 9 ∷ []))
    × ((t : ℕ) → member t (sorted_set (9 ∷ 5 ∷ 1 ∷ 9 ∷ [])) ≡ member t (9 ∷ 5 ∷ 1 ∷ 9 ∷ []))
    × Committed 4
        (9 ∷ 5 ∷ 1 ∷ 9 ∷ [])
        (3 ∷ 5 ∷ 8 ∷ [])
        (commit 4 (9 ∷ 5 ∷ 1 ∷ 9 ∷ []) (3 ∷ 5 ∷ 8 ∷ []))
commit-Committed_example = commit-Committed 4 (9 ∷ 5 ∷ 1 ∷ 9 ∷ []) (3 ∷ 5 ∷ 8 ∷ [])
