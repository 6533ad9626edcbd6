-- ===== src/SparseKv/Fetch.antt =====
-- `fetch` and `prefetch` of bmpclient/sparse_kv/store.py. The caller's buffers stand beside the
-- state; a batch read works on some of them and writes to those in place.
use ummwith_client.Prelude.{
  ℕ, suc, not, none, some, List, [], ◌∷◌, ltb, ◌==◌, if◌then◌else◌, length, get_elem?, set, map,
  replicate, Result, ok, err, value_error, index_error, raise_if,
}
use ummwith_client.Prelude.Action.{Action, lift, pure, gets, ◌>>=◌, ◌>>◌}
use ummwith_client.Prelude.Int.{ℤ}
use ummwith_client.Prelude.Splice.{splice}
use ummwith_client.Umm.{Bytes, UmmLib}
use ummwith_client.Strategy as Strategy
use ummwith_client.SlotTable as Slots
use ummwith_client.SlotTable.Entry.{entry_offset}
use ummwith_client.VirtualMedia.Batch as Batch
use ummwith_client.SparseKv.Store.{Store, State, Key, cached, put_key, entry_valid}
use ummwith_client.SparseKv.Planning.{zip, keys_of}

-- The buffers at the positions, and their return to those.
abbrev pub pick : List ℕ → List Bytes → List Bytes
pick [] outs = []
pick (p ∷ ps) outs = elim (get_elem? outs p) [ none ↦ pick ps outs | some out ↦ out ∷ pick ps outs ]

abbrev pub put_all : List ℕ → List Bytes → List Bytes → List Bytes
put_all [] news outs = outs
put_all (p ∷ ps) [] outs = outs
put_all (p ∷ ps) (b ∷ news) outs = put_all ps news (set outs p b)

-- `[t for t in token_indices if (layer_id, t) not in self._cache]`
unfoldable pub pending : ℤ → List ℤ → Store → List ℤ
pending layer [] s = []
pending layer (t ∷ ts) s =
    let rest = pending layer ts s in
    elim (cached (layer, t) s.cache) [ none ↦ t ∷ rest | some unit ↦ rest ]

-- What is left to read from the media: devices and offsets, and the positions of their buffers.
abbrev pub Wanted : Type 0
Wanted = List ((ℤ × ℕ) × ℕ)

module _ (lib : UmmLib) where
  abbrev pub FetchState : Type 0
  FetchState = State lib × List Bytes

  -- `out[pos][:unit_size] = cached`, which raises if the buffer is shorter.
  unfoldable pub copy_cached : ℕ → ℕ → Bytes → Action FetchState (Unit {0})
  copy_cached size at unit (s, outs) = elim (get_elem? outs at) [
    | none ↦ (err index_error, (s, outs))
    | some out ↦
        if ltb (length out) size
        then (err value_error, (s, outs))
        else (ok tt, (s, set outs at (splice out 0 unit)))
  ]

  -- The loop of `fetch`, from position `at` on.
  unfoldable pub fetch_loop : ℤ → ℕ → List ℤ → List (ℕ × ℕ) → Action FetchState Wanted
  unfolding copy_cached
  fetch_loop layer at [] pairs = pure []
  fetch_loop layer at (t ∷ ts) [] = pure []
  fetch_loop layer at (t ∷ ts) ((e, d) ∷ pairs) = do
    lift (raise_if (not (entry_valid e)) value_error)
    s ← gets (λ s. s.0.0)
    elim (cached (layer, t) s.cache) [
      | some unit ↦ copy_cached s.unit_size at unit >> fetch_loop layer (suc at) ts pairs
      | none ↦ do
        rest ← fetch_loop layer (suc at) ts pairs
        pure (((ℤ.pos d, entry_offset e), at) ∷ rest)
    ]

  -- `vm.read_batch(items, real_out)`: `real_out` are some of the caller's buffers.
  unfoldable pub read_wanted : Wanted → Action FetchState (Unit {0})
  read_wanted [] fs = (ok tt, fs)
  read_wanted (w ∷ ws) ((s, m), outs) =
      let at : List ℕ = map (λ (x : (ℤ × ℕ) × ℕ). x.1) (w ∷ ws) in
      let (r, (m', news)) =
        Batch.read_batch lib (map (λ (x : (ℤ × ℕ) × ℕ). x.0) (w ∷ ws)) (m, pick at outs) in
      (r, ((s, m'), put_all at news outs))

  -- `fetch`
  unfoldable pub fetch : ℤ → List ℤ → Action FetchState (Unit {0})
  unfolding fetch_loop read_wanted
  fetch layer tokens = do
    s ← gets (λ s. s)
    lift (raise_if (not (length s.1 == length tokens)) value_error)
    let devices = Strategy.locate_batch s.0.1.0.placement (keys_of layer tokens)
    entries ← lift (Slots.gather s.0.0.table layer tokens)
    wanted ← fetch_loop layer 0 tokens (zip entries devices)
    read_wanted wanted

  abbrev pub put_units : ℤ → List ℤ → List Bytes → List (Key × Bytes) → List (Key × Bytes)
  put_units layer [] bufs cache = cache
  put_units layer (t ∷ ts) [] cache = cache
  put_units layer (t ∷ ts) (b ∷ bufs) cache = put_units layer ts bufs (put_key (layer, t) b cache)

  abbrev pub remember : ℤ → List ℤ → Result (Unit {0}) × FetchState → Result (Unit {0}) × State lib
  remember layer ts (err e, (s, bufs)) = (err e, s)
  remember layer ts (ok _, ((s, m), bufs)) =
      (ok tt, (record s { cache = put_units layer ts bufs s.cache }, m))

  abbrev pub prefetch_pending : ℤ → List ℤ → Action (State lib) (Unit {0})
  prefetch_pending layer [] s = (ok tt, s)
  prefetch_pending layer (t ∷ ts) s =
      remember layer (t ∷ ts)
        (fetch layer (t ∷ ts) (s, replicate (length (t ∷ ts)) (replicate s.0.unit_size 0)))

  -- `prefetch`
  unfoldable pub prefetch : ℤ → List ℤ → Action (State lib) (Unit {0})
  unfolding fetch pending
  prefetch layer tokens s = prefetch_pending layer (pending layer tokens s.0) s
