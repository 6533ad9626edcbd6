-- ===== src/ConcurrentIo/Progress.antt =====
-- How far a batch of bmpclient/concurrent_io.py can go: the number of its steps, whether it always
-- ends, and what a limit on the requests in flight does to a long batch.
use ummwith_client.Prelude.{
  ℕ, zero, suc, ◌+◌, ◌*◌, ◌≡◌, ◌≤◌, ◌<◌, ◌⊎◌, inl, inr, refl, sym, ap, subst, ◌∙◌, Bool, true,
  false, none, some, List, [], ◌∷◌, ◌++◌, arith, length, length-map, length-append,
}
use ummwith_client.Umm.{UmmLib}
use ummwith_client.ConcurrentIo.Handle.{IoHandle, IoRequest, set_many, new_handle, done}
use ummwith_client.ConcurrentIo.Engine.{Config, Item, Groups, into_group, group_key}
use ummwith_client.ConcurrentIo.System.{
  Permits, can_acquire, Stats, System, submitted, Step, admit, hand_over, refuse, run, Reach, here,
  next,
}
use ummwith_client.ConcurrentIo.Weights.{one, weight, weight-one, group_weight, queue_weight}
use ummwith_client.ConcurrentIo.Slots.{length-enumerate}
use ummwith_client.ConcurrentIo.Balance.{submitted-Balanced}
use ummwith_client.ConcurrentIo.Accounting.{Balanced, Accounted, held, reach-Balanced}

length-into_group :
    (k : ℕ) (x : Item) (groups : Groups) → length (into_group k x groups) ≤ suc (length groups)
unfolding into_group
length-into_group k x [] = omega arith
length-into_group k x ((j, items) ∷ rest) = ground (arith, length-into_group k x rest)

module _ (lib : UmmLib) (c : Config) where
  -- The steps that are left at most.
  abbrev pub measure : System lib c → ℕ
  measure s = 3 * length s.todo + 2 * length s.groups + length s.queued

  Step-measure : (s t : System lib c) → Step lib c s t → measure t < measure s
  Step-measure s _ (admit x rest e p) =
      omega (arith, ap length e, length-into_group (group_key c x) x s.groups)
  Step-measure s _ (hand_over k items rest e g) =
      omega (arith, ap length g, length-append s.queued (items ∷ []))
  Step-measure s _ (refuse x k items rest e g) = omega (arith, ap length g)
  Step-measure s _ (run before items after e) =
      omega (arith, ap length e, length-append before (items ∷ after), length-append before after)

  -- The length of a run.
  abbrev pub steps : (s t : System lib c) → Reach lib c s t → ℕ
  steps s _ here = 0
  steps s u (next {t} r st) = suc (steps s t r)

  steps-measure : (s t : System lib c) (r : Reach lib c s t) → steps s t r + measure t ≤ measure s
  steps-measure s _ here = omega arith
  steps-measure s u (next {t} r st) = omega (arith, steps-measure s t r, Step-measure t u st)

  measure-submitted :
      (limit : Permits) (items : List (IoRequest × Bool)) (stats : Stats) (dev : lib.Dev)
      → measure (submitted lib c items limit stats dev) ≡ 3 * length items
  unfolding submitted
  measure-submitted limit items stats dev = omega (arith, length-enumerate 0 items)

  -- The limit is no smaller than the batch.
  abbrev pub Fits : Permits → ℕ → Type 0
  Fits none n = Unit
  Fits (some m) n = n ≤ m

  remaining-le : (s t : System lib c) → Reach lib c s t → t.handle.remaining ≤ s.handle.remaining
  unfolding set_many
  remaining-le s _ here = omega arith
  remaining-le s u (next {t} r (admit x rest e p)) = remaining-le s t r
  remaining-le s u (next {t} r (hand_over k items rest e g)) = remaining-le s t r
  remaining-le s u (next {t} r (refuse x k items rest e g)) = omega (arith, remaining-le s t r)
  remaining-le s u (next {t} r (run before items after e)) = omega (arith, remaining-le s t r)

  can_acquire-Fits :
      (limit p : Permits) (n k : ℕ)
      → Fits limit n
      → Accounted lib c limit p k
      → k < n
      → can_acquire p ≡ true
  can_acquire-Fits none none n k f h l = refl
  can_acquire-Fits (some m) (some p) n k f h l = ground arith
  can_acquire-Fits none (some p) n k f h l = absurd h
  can_acquire-Fits (some m) none n k f h l = absurd h

  abbrev pub Enabled : System lib c → Type 0
  Enabled t = (u : System lib c) × Step lib c t u

  advance :
      (limit : Permits) (n : ℕ) (t : System lib c) (todo : List Item) (groups : Groups)
      (queued : List (List Item))
      → t.todo ≡ todo
      → t.groups ≡ groups
      → t.queued ≡ queued
      → Fits limit n
      → Balanced lib c limit t
      → t.handle.remaining ≤ n
      → Enabled t ⊎ (t.handle.remaining ≡ 0)
  advance limit n t (x ∷ rest) groups queued a g q f b l = inl (
    _,
    admit x rest a (
        can_acquire-Fits limit t.permits n (held lib c one t) f b.permits
          (omega (arith, ap (weight one) a, b.remaining))),
  )
  advance limit n t [] ((k, items) ∷ rest) queued a g q f b l = inl (_, hand_over k items rest a g)
  advance limit n t [] [] (items ∷ rest) a g q f b l = inl (_, run [] items rest q)
  advance limit n t [] [] [] a g q f b l = inr (
      omega
        (arith, b.remaining, ap (weight one) a, ap (group_weight one) g, ap (queue_weight one) q))

  remaining-submitted :
      (limit : Permits) (items : List (IoRequest × Bool)) (stats : Stats) (dev : lib.Dev)
      → (submitted lib c items limit stats dev).handle.remaining ≡ length items
  unfolding submitted new_handle
  remaining-submitted limit items stats dev = length-map (λ (x : IoRequest × Bool). x.0) items

  -- A batch that is no longer than the limit, submitted to an idle engine, never gets stuck: in each
  -- state that the engine can reach, a step is possible or the batch is done.
  pub submitted_advances :
      (limit : Permits) (items : List (IoRequest × Bool)) (stats : Stats) (dev : lib.Dev)
      (t : System lib c)
      → stats.inflight ≡ 0
      → stats.submitted ≡ stats.completed + stats.failed
      → Fits limit (length items)
      → Reach lib c (submitted lib c items limit stats dev) t
      → Enabled t ⊎ (done t.handle ≡ true)
  unfolding done
  submitted_advances limit items stats dev t idle counted f r =
      elim (advance limit (length items) t t.todo t.groups t.queued refl refl refl f
        (submitted-Balanced lib c limit items stats dev t idle counted r)
        (omega (
          arith,
          remaining-le (submitted lib c items limit stats dev) t r,
          remaining-submitted limit items stats dev,
        ))) [ inl e ↦ inl e | inr z ↦ inr (ground (arith, z)) ]

  -- A step before a run.
  reach_after : (s t u : System lib c) → Step lib c s t → Reach lib c t u → Reach lib c s u
  reach_after s t _ st here = next here st
  reach_after s t w st (next {t = x} r final) = next (reach_after s t x st r) final

  -- From a state that leaves `k` steps at most the batch gets done.
  finishes :
      (limit : Permits) (items : List (IoRequest × Bool)) (stats : Stats) (dev : lib.Dev) (k : ℕ)
      (t : System lib c)
      → stats.inflight ≡ 0
      → stats.submitted ≡ stats.completed + stats.failed
      → Fits limit (length items)
      → Reach lib c (submitted lib c items limit stats dev) t
      → measure t ≤ k
      → (u : System lib c) × Reach lib c t u × (done u.handle ≡ true)
  finishes limit items stats dev zero t idle counted f r small =
      elim (submitted_advances limit items stats dev t idle counted f r) [
        | inr ended ↦ (t, here, ended)
        | inl (u, st) ↦ absurd (omega (arith, Step-measure t u st, small))
      ]
  finishes limit items stats dev (suc k) t idle counted f r small =
      elim (submitted_advances limit items stats dev t idle counted f r) [
        | inr ended ↦ (t, here, ended)
        | inl (u, st) ↦
            let (w, rest, ended) =
              finishes limit items stats dev k u idle counted f (next r st)
                (omega (arith, Step-measure t u st, small)) in
            (w, reach_after t u w st rest, ended)
      ]

  -- A batch that is no longer than the limit, submitted to an idle engine, can always be brought to its
  -- end: whatever steps were taken, some further steps lead to a state in which the handle is done, and
  -- all these steps together are at most three for each request.
  pub submitted_finishes :
      (limit : Permits) (items : List (IoRequest × Bool)) (stats : Stats) (dev : lib.Dev)
      (t : System lib c) (r : Reach lib c (submitted lib c items limit stats dev) t)
      → stats.inflight ≡ 0
      → stats.submitted ≡ stats.completed + stats.failed
      → Fits limit (length items)
      → (u : System lib c) × (rest : Reach lib c t u) × (done u.handle ≡ true)
        × (steps (submitted lib c items limit stats dev) t r + steps t u rest ≤ 3 * length items)
  submitted_finishes limit items stats dev t r idle counted f =
      let (u, rest, ended) =
        finishes limit items stats dev (measure t) t idle counted f r (omega arith) in
      (
        u,
        rest,
        ended,
        omega (
          arith,
          steps-measure (submitted lib c items limit stats dev) t r,
          steps-measure t u rest,
          measure-submitted limit items stats dev,
        ),
      )

  Accounted-le : (m : ℕ) (p : Permits) (k : ℕ) → Accounted lib c (some m) p k → k ≤ m
  Accounted-le m none k h = absurd h
  Accounted-le m (some p) k h = omega (arith, h)

  waiting :
      (m : ℕ) (t : System lib c)
      → Balanced lib c (some m) t
      → m < t.handle.remaining
      → 0 < length t.todo
  waiting m t b h = omega (
    arith,
    b.remaining,
    weight-one t.todo,
    Accounted-le m t.permits (held lib c one t) b.permits,
    h,
  )

  no_split :
      (before : List (List Item)) (items : List Item) (after : List (List Item))
      → ¬ ([] ≡ before ++ items ∷ after)
  no_split before items after e = omega (arith, ap length e, length-append before (items ∷ after))

  reach_blocked :
      (m : ℕ) (s t : System lib c)
      → Reach lib c s t
      → Balanced lib c (some m) s
      → m < s.handle.remaining
      → s.queued ≡ []
      → (t.handle ≡ s.handle) × (t.queued ≡ [])
  reach_blocked m s _ here b h q = (refl, q)
  reach_blocked m s u (next {t} r (admit x rest e p)) b h q = reach_blocked m s t r b h q
  reach_blocked m s u (next {t} r (hand_over k items rest e g)) b h q =
      let (same, empty) = reach_blocked m s t r b h q in
      absurd (
        omega (
          arith,
          ap length e,
          waiting m t (reach-Balanced lib c (some m) s t r b)
              (subst (λ (x : IoHandle). m < x.remaining) (sym same) h),
        ))
  reach_blocked m s u (next {t} r (refuse x k items rest e g)) b h q =
      let (same, empty) = reach_blocked m s t r b h q in
      absurd (
        omega (
          arith,
          ap length e,
          waiting m t (reach-Balanced lib c (some m) s t r b)
              (subst (λ (x : IoHandle). m < x.remaining) (sym same) h),
        ))
  reach_blocked m s u (next {t} r (run before items after e)) b h q =
      let (same, empty) = reach_blocked m s t r b h q in
      absurd (no_split before items after (sym empty ∙ e))

  -- A batch that is longer than the limit, submitted to an idle engine, never gets past the taking of
  -- permits: in each state that the engine can reach, a request still has no permit, so that no group
  -- was handed over, and the handle is as it was at the start, not done.
  pub submitted_blocks :
      (m : ℕ) (items : List (IoRequest × Bool)) (stats : Stats) (dev : lib.Dev) (t : System lib c)
      → stats.inflight ≡ 0
      → stats.submitted ≡ stats.completed + stats.failed
      → m < length items
      → Reach lib c (submitted lib c items (some m) stats dev) t
      → (0 < length t.todo)
        × (t.queued ≡ [])
        × (t.handle ≡ (submitted lib c items (some m) stats dev).handle)
        × (done t.handle ≡ false)
  unfolding done
  submitted_blocks m items stats dev t idle counted h r =
      let s = submitted lib c items (some m) stats dev in
      let b = submitted-Balanced lib c (some m) items stats dev s idle counted here in
      let big : m < s.handle.remaining =
        omega (arith, remaining-submitted (some m) items stats dev) in
      let (same, empty) = reach_blocked m s t r b big (unfold submitted in refl) in
      let left : m < t.handle.remaining =
        subst (λ (x : IoHandle). m < x.remaining) (sym same) big in
      (waiting m t (reach-Balanced lib c (some m) s t r b) left, empty, same, ground (arith, left))
