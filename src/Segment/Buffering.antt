-- ===== src/Segment/Buffering.antt =====
-- How a segment manager opens and writes its buffer, on every outcome.
use ummwith_client.Prelude.{
  ℕ, ◌*◌, ◌<◌, ◌≡◌, refl, List, [], ◌∷◌, arith, Option, some, none, ap, Error, inl, inr, Result, ok,
  err, segment_full, ◌⊎◌, sym, subst, ◌∙◌,
}
use ummwith_client.Umm.{Bytes, UmmLib}
use ummwith_client.Segment.Manager.{
  Manager, State, start_segment, start, after_write, opened, flush_locked, open_buffer, settle,
  updated,
}
use ummwith_client.Segment.Invariant.{IsValid, Buffered}
use ummwith_client.Segment.Steps.{opened-IsValid}
use ummwith_client.Segment.Append.{drop_buffer-IsValid}

abbrev pub HasBuffer : Manager → Type 0
HasBuffer m = (seg : ℕ) × (buf : Bytes) × (m.buf_seg ≡ some seg) × (m.buf ≡ some buf)

-- An open buffer comes with its segment, and the other way round.
pub has_buffer :
    (m : Manager) (live : List ℕ) (b : Option Bytes) (s : Option ℕ)
    → m.buf ≡ b
    → m.buf_seg ≡ s
    → Buffered m live b s
    → (m.buf ≡ none) ⊎ HasBuffer m
has_buffer m live none s e f h = inl e
has_buffer m live (some b) none e f h = absurd h
has_buffer m live (some b) (some seg) e f h = inr (seg, b, f, e)

-- Why a method raises: no segment is left, or the library refuses the write of a segment.
abbrev pub Full : Error → Manager → Type 0
Full e m = (e ≡ segment_full) × (m.free ≡ [])

abbrev pub Refused : UmmLib → Error → Manager → Type 0
Refused lib e m =
    (seg : ℕ) × (buf : Bytes) × (dev : lib.Dev) × ((lib.write_from m.desc (seg * m.sp_bytes) buf
        dev).0
      ≡ err e)

abbrev pub Cause : UmmLib → Error → Manager → Type 0
Cause lib e m = Full e m ⊎ Refused lib e m

abbrev pub Ready : Manager → Type 0
Ready m = HasBuffer m × (m.buf_fill < m.slots_per_seg)

abbrev pub Closed : Manager → Type 0
Closed m = m.buf ≡ none

module _ (lib : UmmLib) (unit_size : ℕ) (live : List ℕ) where
  open lib use {Dev}

  -- After a step without a result: well-formed with the same live units; if it returned, `P` too,
  -- and if it raised, then for the cause `C`.
  abbrev pub Kept :
      (Error → Manager → Type 0) → (Manager → Type 0) → Result (Unit {0}) × State lib → Type 0
  Kept C P (err e, (m, dev)) = IsValid m live × (m.unit_size ≡ unit_size) × C e m
  Kept C P (ok _, (m, dev)) = IsValid m live × (m.unit_size ≡ unit_size) × P m

  pub start-empty :
      (m : Manager) (dev : Dev) → m.free ≡ [] → start lib (m, dev) ≡ (err segment_full, (m, dev))
  unfolding start_segment
  start-empty m dev e = ground arith

  pub start-pooled :
      (m : Manager) (dev : Dev) (seg : ℕ) (rest : List ℕ)
      → m.free ≡ seg ∷ rest
      → start lib (m, dev) ≡ (ok tt, (opened m seg rest, dev))
  unfolding start_segment
  start-pooled m dev seg rest e = ground arith

  -- A new buffer is empty, or the pool is.
  pub start-Kept :
      (m : Manager) (dev : Dev)
      → IsValid m live
      → m.unit_size ≡ unit_size
      → m.buf ≡ none
      → Kept Full Ready (start lib (m, dev))
  start-Kept m dev v e closed = by_pool m.free refl
    where
      by_pool : (free : List ℕ) → m.free ≡ free → Kept Full Ready (start lib (m, dev))
      by_pool [] empty =
          subst (Kept Full Ready) (sym (start-empty m dev empty)) (v, e, (refl, empty))
      by_pool (seg ∷ rest) top =
          subst (Kept Full Ready) (sym (start-pooled m dev seg rest top))
            (opened-IsValid v seg rest closed top, e, ((seg, _, refl, refl), v.slots_pos))

  Kept-HasBuffer : (r : Result (Unit {0}) × State lib) → Kept Full Ready r → Kept Full HasBuffer r
  Kept-HasBuffer (ok _, (m, dev)) (v, e, (has, _)) = (v, e, has)
  Kept-HasBuffer (err _, (m, dev)) h = h

  pub widen :
      (P : Manager → Type 0) (r : Result (Unit {0}) × State lib)
      → Kept Full P r
      → Kept (Cause lib) P r
  widen P (ok _, (m, dev)) h = h
  widen P (err _, (m, dev)) (v, e, full) = (v, e, inl full)

  pub open_buffer-closed :
      (m : Manager) (dev : Dev) → m.buf ≡ none → open_buffer lib (m, dev) ≡ start lib (m, dev)
  unfolding open_buffer
  open_buffer-closed m dev e = ground arith

  pub open_buffer-open :
      (m : Manager) (dev : Dev) (buf : Bytes)
      → m.buf ≡ some buf
      → open_buffer lib (m, dev) ≡ (ok tt, (m, dev))
  unfolding open_buffer
  open_buffer-open m dev buf e = ground arith

  pub open_buffer-Kept :
      (m : Manager) (dev : Dev)
      → IsValid m live
      → m.unit_size ≡ unit_size
      → Kept Full HasBuffer (open_buffer lib (m, dev))
  open_buffer-Kept m dev v e = elim (has_buffer m live m.buf m.buf_seg refl refl v.buffered) [
    | inl closed ↦
        subst (Kept Full HasBuffer) (sym (open_buffer-closed m dev closed))
          (Kept-HasBuffer (start lib (m, dev)) (start-Kept m dev v e closed))
    | inr (seg, buf, at_seg, has) ↦
        subst (Kept Full HasBuffer) (sym (open_buffer-open m dev buf has))
          (v, e, (seg, buf, at_seg, has))
  ]

  -- The write and what follows it, on either outcome of the write.
  after_write-Kept :
      (m : Manager) (seg : ℕ) (buf : Bytes) (before : Dev) (w : Result ℕ × Dev)
      → lib.write_from m.desc (seg * m.sp_bytes) buf before ≡ w
      → IsValid m live
      → m.unit_size ≡ unit_size
      → m.buf_seg ≡ some seg
      → m.buf ≡ some buf
      → Kept (Refused lib) Closed (after_write lib m seg w)
  after_write-Kept m seg buf before (err x, dev) wrote v e at_seg has =
      (v, e, (seg, buf, before, ap (λ r. r.0) wrote))
  after_write-Kept m seg buf before (ok n, dev) wrote v e at_seg has =
      let (m', dropped, v', closed, (_, size, _, _, _)) =
        drop_buffer-IsValid v seg buf at_seg has in
      subst (λ r. Kept (Refused lib) Closed (settle lib (m, dev) (updated lib r))) (sym dropped)
        (v', size ∙ e, closed)

  pub flush_locked-open :
      (m : Manager) (dev : Dev) (seg : ℕ) (buf : Bytes)
      → m.buf_seg ≡ some seg
      → m.buf ≡ some buf
      → flush_locked lib (m, dev)
        ≡ after_write lib m seg (lib.write_from m.desc (seg * m.sp_bytes) buf dev)
  unfolding flush_locked
  flush_locked-open m dev seg buf at_seg has = ground arith

  pub flush_locked-Kept :
      (m : Manager) (dev : Dev)
      → IsValid m live
      → m.unit_size ≡ unit_size
      → HasBuffer m
      → Kept (Refused lib) Closed (flush_locked lib (m, dev))
  flush_locked-Kept m dev v e (seg, buf, at_seg, has) =
      subst (Kept (Refused lib) Closed) (sym (flush_locked-open m dev seg buf at_seg has))
        (after_write-Kept m seg buf dev _ refl v e at_seg has)
