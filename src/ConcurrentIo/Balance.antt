-- ===== src/ConcurrentIo/Balance.antt =====
-- The books of a batch of bmpclient/concurrent_io.py: permits, counters and open results against the
-- items that its stages hold.
use ummwith_client.Prelude.{
  ℕ, ◌+◌, ◌≡◌, ◌≤◌, refl, ap, subst, ◌∙◌, Bool, true, none, some, List, arith, length, length-map,
  length-replicate, ◌<◌, get_elem?, map,
}
use ummwith_client.Umm.{UmmLib}
use ummwith_client.ConcurrentIo.Handle.{IoRequest, Outcome, set_many, new_handle, done}
use ummwith_client.ConcurrentIo.Engine.{Config, enumerate, run_items}
use ummwith_client.ConcurrentIo.System.{
  Permits, Stats, pairs_of, all_refused, System, submitted, admit, hand_over, refuse, run, Reach,
  here, next,
}
use ummwith_client.ConcurrentIo.Weights.{
  one, at_index, weight-one, weight-at_index, group_weight-at_index, queue_weight-at_index,
}
use ummwith_client.ConcurrentIo.Slots.{
  open_at-start, length-enumerate, length-put_results, recorded,
}
use ummwith_client.ConcurrentIo.Accounting.{unfinished, Accounted, Balanced, reach-Balanced}

module _ (lib : UmmLib) (c : Config) where
  at_index-le :
      (s : System lib c) (i : ℕ) → unfinished lib c (at_index i) s ≤ unfinished lib c one s
  at_index-le s i = omega (
    arith,
    weight-at_index i s.todo,
    group_weight-at_index i s.groups,
    queue_weight-at_index i s.queued,
  )

  permits-start : (limit : Permits) → Accounted lib c limit limit 0
  permits-start none = tt
  permits-start (some m) = omega arith

  -- From the submission of a batch on, when nothing else is in flight, in each state that the engine
  -- can reach: the free permits and the items under way are those of the engine, the results to come
  -- and the counter of requests in flight are the items that the stages hold, the submitted requests
  -- are the completed, the failed and those in flight, and a result is open where its request is still
  -- in a stage.
  pub submitted-Balanced :
      (limit : Permits) (items : List (IoRequest × Bool)) (stats : Stats) (dev : lib.Dev)
      (t : System lib c)
      → stats.inflight ≡ 0
      → stats.submitted ≡ stats.completed + stats.failed
      → Reach lib c (submitted lib c items limit stats dev) t
      → Balanced lib c limit t
  unfolding submitted new_handle
  submitted-Balanced limit items stats dev t idle counted r =
      reach-Balanced lib c limit (submitted lib c items limit stats dev) t r (record {
        permits = permits-start limit;
        remaining = omega (
          arith,
          length-map (λ (x : IoRequest × Bool). x.0) items,
          weight-one (enumerate 0 items),
          length-enumerate 0 items,
        );
        inflight = idle;
        counted = omega arith;
        opened =
            rw (length-map (λ (x : IoRequest × Bool). x.0) items)
              (λ i. omega (arith, open_at-start items i));
      })

  length-results :
      (s t : System lib c) → Reach lib c s t → length t.handle.results ≡ length s.handle.results
  unfolding set_many
  length-results s _ here = refl
  length-results s u (next {t} r (admit x rest e p)) = length-results s t r
  length-results s u (next {t} r (hand_over k items rest e g)) = length-results s t r
  length-results s u (next {t} r (refuse x k items rest e g)) =
      length-put_results (all_refused x items) t.handle.results ∙ length-results s t r
  length-results s u (next {t} r (run before items after e)) =
      length-put_results (pairs_of (run_items lib items t.dev).0) t.handle.results
      ∙ length-results s t r

  Accounted-zero : (limit p : Permits) → Accounted lib c limit p 0 → p ≡ limit
  Accounted-zero none none h = refl
  Accounted-zero (some m) (some p) h = ap some (omega (arith, h))
  Accounted-zero none (some p) h = absurd h
  Accounted-zero (some m) none h = absurd h

  slots-submitted :
      (limit : Permits) (items : List (IoRequest × Bool)) (stats : Stats) (dev : lib.Dev)
      → length (submitted lib c items limit stats dev).handle.results ≡ length items
  unfolding submitted new_handle
  slots-submitted limit items stats dev =
      length-replicate (length (map (λ (x : IoRequest × Bool). x.0) items)) none
      ∙ length-map (λ (x : IoRequest × Bool). x.0) items

  -- When a batch that was submitted to an idle engine is done, however its items were grouped, refused
  -- and run, each request has its result, all permits are free again, and nothing is in flight: each
  -- submitted request has completed or failed.
  pub done_lem :
      (limit : Permits) (items : List (IoRequest × Bool)) (stats : Stats) (dev : lib.Dev)
      (t : System lib c)
      → stats.inflight ≡ 0
      → stats.submitted ≡ stats.completed + stats.failed
      → Reach lib c (submitted lib c items limit stats dev) t
      → done t.handle ≡ true
      → ((i : ℕ)
          → i < length items
          → (r : Outcome) × (get_elem? t.handle.results i ≡ some (some r)))
        × (t.permits ≡ limit)
        × (t.stats.inflight ≡ 0)
        × (t.stats.submitted ≡ t.stats.completed + t.stats.failed)
  done_lem limit items stats dev t idle counted r finish =
      let b = submitted-Balanced limit items stats dev t idle counted r in
      let over : t.handle.remaining ≡ 0 = unfold done in ground (arith, finish) in
      let long : length t.handle.results ≡ length items =
        length-results (submitted lib c items limit stats dev) t r
        ∙ slots-submitted limit items stats dev in
      (
        λ i h.
            recorded t.handle.results i (omega (arith, long))
              (omega (arith, b.opened i, at_index-le t i, b.remaining, over)),
        Accounted-zero limit t.permits
            (subst (Accounted lib c limit t.permits) (omega (arith, b.remaining, over)) b.permits),
        omega (arith, b.inflight, b.remaining, over),
        omega (arith, b.inflight, b.counted, b.remaining, over),
      )
