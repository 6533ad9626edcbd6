-- ===== src/ConcurrentIo/Accounting.antt =====
-- What each step of a batch of bmpclient/concurrent_io.py does to the permits, the counters and the open
-- results, against the items that the stages hold.
use ummwith_client.Prelude.{
  ℕ, ◌+◌, ◌-◌, ◌≡◌, refl, sym, ap, subst, true, none, some, List, [], ◌∷◌, ◌++◌, arith, length,
  Error,
}
use ummwith_client.Umm.{UmmLib}
use ummwith_client.ConcurrentIo.Handle.{Outcome, put_results, set_many}
use ummwith_client.ConcurrentIo.Engine.{Config, Item, Groups, group_key, run_items}
use ummwith_client.ConcurrentIo.System.{
  Permits, can_acquire, acquire, release_permits, pairs_of, all_refused, System, admitted,
  handed_over, refused, finished, Step, admit, hand_over, refuse, run, Reach, here, next,
}
use ummwith_client.ConcurrentIo.Weights.{
  one, at_index, weight, group_weight, queue_weight, group_weight-into_group, queue_weight-append,
  pair_weight, pair_weight-all_refused, pair_weight-one, weight-one, pair_weight-run_items,
  length-run_items, count_ok-le,
}
use ummwith_client.ConcurrentIo.Slots.{open_at, open_at-put_results, open_at-le}

module _ (lib : UmmLib) (c : Config) where
  -- The items with a permit, and all items not finished.
  abbrev pub held : (ℕ → ℕ) → System lib c → ℕ
  held w s = group_weight w s.groups + queue_weight w s.queued

  abbrev pub unfinished : (ℕ → ℕ) → System lib c → ℕ
  unfinished w s = weight w s.todo + held w s

  -- The free permits and the `k` taken ones are those of the engine.
  abbrev pub Accounted : Permits → Permits → ℕ → Type 0
  Accounted none none k = Unit
  Accounted (some m) (some p) k = p + k ≡ m
  Accounted none (some p) k = ⊥
  Accounted (some m) none k = ⊥

  pub record Balanced (limit : Permits) (s : System lib c) : Type 0 where
    pub permits : Accounted limit s.permits (held one s)
    pub remaining : s.handle.remaining ≡ unfinished one s
    pub inflight : s.stats.inflight ≡ held one s
    pub counted : s.stats.submitted ≡ s.stats.completed + s.stats.failed + s.stats.inflight
    pub opened : (i : ℕ) → open_at s.handle.results i ≡ unfinished (at_index i) s

  acquire-Accounted :
      (limit p : Permits) (k : ℕ)
      → can_acquire p ≡ true
      → Accounted limit p k
      → Accounted limit (acquire p) (1 + k)
  acquire-Accounted none none k e h = tt
  acquire-Accounted (some m) (some p) k e h = ground arith
  acquire-Accounted none (some p) k e h = h
  acquire-Accounted (some m) none k e h = h

  release_permits-Accounted :
      (limit p : Permits) (j k l : ℕ)
      → k ≡ j + l
      → Accounted limit p k
      → Accounted limit (release_permits j p) l
  release_permits-Accounted none none j k l e h = tt
  release_permits-Accounted (some m) (some p) j k l e h = ground arith
  release_permits-Accounted none (some p) j k l e h = h
  release_permits-Accounted (some m) none j k l e h = h

  module _ (limit : Permits) where
    admitted-Balanced :
        (s : System lib c) (x : Item) (rest : List Item)
        → s.todo ≡ x ∷ rest
        → can_acquire s.permits ≡ true
        → Balanced limit s
        → Balanced limit (admitted lib c x rest s)
    admitted-Balanced s x rest e p b =
        let grown : ((w : ℕ → ℕ) → held w (admitted lib c x rest s) ≡ w x.idx + held w s) =
          (λ w. omega (arith, group_weight-into_group w (group_key c x) x s.groups)) in
        let moved : ((w : ℕ → ℕ) → weight w s.todo ≡ w x.idx + weight w rest) =
          (λ w. ap (weight w) e) in
        record {
          permits =
              subst (Accounted limit (acquire s.permits)) (sym (grown one))
                (acquire-Accounted limit s.permits (held one s) p b.permits);
          remaining = omega (arith, b.remaining, grown one, moved one);
          inflight = omega (arith, b.inflight, grown one);
          counted = omega (arith, b.counted);
          opened = λ i. omega (arith, b.opened i, grown (at_index i), moved (at_index i));
        }

    handed_over-Balanced :
        (s : System lib c) (k : ℕ) (items : List Item) (rest : Groups)
        → s.groups ≡ (k, items) ∷ rest
        → Balanced limit s
        → Balanced limit (handed_over lib c items rest s)
    handed_over-Balanced s k items rest e b =
        let same : ((w : ℕ → ℕ) → held w (handed_over lib c items rest s) ≡ held w s) = (λ w.
          omega (arith, ap (group_weight w) e, queue_weight-append w s.queued (items ∷ []))) in
        record {
          permits = subst (Accounted limit s.permits) (sym (same one)) b.permits;
          remaining = omega (arith, b.remaining, same one);
          inflight = omega (arith, b.inflight, same one);
          counted = b.counted;
          opened = λ i. omega (arith, b.opened i, same (at_index i));
        }

    -- The items leave, and each gets a result.
    module _ (s t : System lib c) (items : List Item) (pairs : List (ℕ × Outcome))
        (gone : (w : ℕ → ℕ) → held w s ≡ weight w items + held w t) (todo : t.todo ≡ s.todo)
        (written : (w : ℕ → ℕ) → pair_weight w pairs ≡ weight w items) (b : Balanced limit s) where
      settled-permits : Accounted limit (release_permits (length items) s.permits) (held one t)
      settled-permits =
          release_permits-Accounted limit s.permits (length items) (held one s) (held one t)
            (omega (arith, gone one, weight-one items)) b.permits

      settled-remaining : s.handle.remaining - length pairs ≡ unfinished one t
      settled-remaining =
          omega
            (arith, b.remaining, gone one, ap (weight one) todo, written one, pair_weight-one pairs)

      settled-opened :
          (i : ℕ) → open_at (put_results pairs s.handle.results) i ≡ unfinished (at_index i) t
      settled-opened i = ground (
        arith,
        b.opened i,
        gone (at_index i),
        ap (weight (at_index i)) todo,
        written (at_index i),
        open_at-put_results pairs s.handle.results i,
        open_at-le s.handle.results i,
      )

    refused-Balanced :
        (s : System lib c) (x : Error) (k : ℕ) (items : List Item) (rest : Groups)
        → s.groups ≡ (k, items) ∷ rest
        → Balanced limit s
        → Balanced limit (refused lib c x items rest s)
    unfolding set_many
    refused-Balanced s x k items rest e b =
        let t = refused lib c x items rest s in
        let gone : ((w : ℕ → ℕ) → held w s ≡ weight w items + held w t) =
          (λ w. omega (arith, ap (group_weight w) e)) in
        let pairs = all_refused x items in
        let written : ((w : ℕ → ℕ) → pair_weight w pairs ≡ weight w items) =
          (λ w. pair_weight-all_refused w x items) in
        record {
          permits = settled-permits s t items pairs gone refl written b;
          remaining = settled-remaining s t items pairs gone refl written b;
          inflight = omega (arith, b.inflight, gone one, weight-one items);
          counted = omega (arith, b.counted, b.inflight, gone one, weight-one items);
          opened = settled-opened s t items pairs gone refl written b;
        }

    finished-Balanced :
        (s : System lib c) (before : List (List Item)) (items : List Item)
        (after : List (List Item))
        → s.queued ≡ before ++ items ∷ after
        → Balanced limit s
        → Balanced limit (finished lib c items (before ++ after) (run_items lib items s.dev) s)
    unfolding set_many
    finished-Balanced s before items after e b =
        let done = run_items lib items s.dev in
        let t = finished lib c items (before ++ after) done s in
        let gone : ((w : ℕ → ℕ) → held w s ≡ weight w items + held w t) = (λ w. omega (
          arith,
          ap (queue_weight w) e,
          queue_weight-append w before (items ∷ after),
          queue_weight-append w before after,
        )) in
        let pairs = pairs_of done.0 in
        let written : ((w : ℕ → ℕ) → pair_weight w pairs ≡ weight w items) =
          (λ w. pair_weight-run_items lib w items s.dev) in
        record {
          permits = settled-permits s t items pairs gone refl written b;
          remaining = settled-remaining s t items pairs gone refl written b;
          inflight = omega (arith, b.inflight, gone one, weight-one items);
          counted = omega (
            arith,
            b.counted,
            b.inflight,
            gone one,
            weight-one items,
            count_ok-le done.0,
            length-run_items lib items s.dev,
          );
          opened = settled-opened s t items pairs gone refl written b;
        }

    Step-Balanced : (s t : System lib c) → Step lib c s t → Balanced limit s → Balanced limit t
    Step-Balanced s _ (admit x rest e p) b = admitted-Balanced s x rest e p b
    Step-Balanced s _ (hand_over k items rest e g) b = handed_over-Balanced s k items rest g b
    Step-Balanced s _ (refuse x k items rest e g) b = refused-Balanced s x k items rest g b
    Step-Balanced s _ (run before items after e) b = finished-Balanced s before items after e b

    pub reach-Balanced :
        (s t : System lib c) → Reach lib c s t → Balanced limit s → Balanced limit t
    reach-Balanced s _ here b = b
    reach-Balanced s u (next {t} r st) b = Step-Balanced t u st (reach-Balanced s t r b)
