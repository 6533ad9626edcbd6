-- ===== src/SparseKv/Views.antt =====
-- The view that `plan` returns: its header and its entries.
use ummwith_client.Prelude.{
  ℕ, suc, ◌+◌, ◌*◌, ◌≤◌, ◌<◌, ◌≡◌, refl, sym, subst, ap, ◌∙◌, true, List, [], ◌∷◌, arith, length,
  Result, ok, err, Bool-cases, inl, inr, ltb,
}
use ummwith_client.Prelude.Action.{Action, continue, pure, gets, ◌>>=◌, ◌>>◌}
use ummwith_client.Prelude.Int.{ℤ, pos, pos_part}
use ummwith_client.Prelude.Splice.{splice, slice, slice-splice_self, slice-splice_after}
use ummwith_client.Umm.{Bytes, UmmLib}
use ummwith_client.Strategy as Strategy
use ummwith_client.SlotTable as Slots
use ummwith_client.SlotTable.{SlotTable}
use ummwith_client.SlotTable.Entry.{entry_offset}
use ummwith_client.VirtualMedia.Media as Media
use ummwith_client.SparseKv.Layout.{
  header_size, entry_size, header_fields, entry_widths, pack, unpack, unpack-pack,
}
use ummwith_client.SparseKv.Store.{Store, State, entry_valid}
use ummwith_client.SparseKv.Planning.{
  PlanView, entry, zip, keys_of, view_of, pack_into, plan_entries, plan,
}
use ummwith_client.SparseKv.Plans.{Planned, plan_entries-Planned}
use ummwith_client.SparseKv.Described.{entry_at, FlagOf, AllDescribed, AllFit, Kept}
use ummwith_client.SparseKv.Lengths.{length-zip, length-locate_batch, length-map, length-gather}

entry_lem :
    (v : PlanView) (n : ℕ)
    → n < v.count
    → entry v (pos n) ≡ ok (unpack entry_widths (slice v.buf (entry_at n) entry_size))
unfolding entry
entry_lem v n h = ground arith

module _ (lib : UmmLib) (m : Media.State lib) (size : ℕ) where
  -- Entry `i` of the view reads: the device, the flag, the address of the unit on the device, its
  -- size, and its place in the staging buffer.
  abbrev pub Listed : PlanView → ℕ → List (ℕ × ℕ) → Type 0
  Listed v i [] = Unit
  Listed v i ((e, d) ∷ rest) =
      ((flags : ℕ) × (base : ℕ) × (entry_valid e ≡ true)
        × FlagOf lib m size d (entry_offset e) flags
        × ((Media.extent_base lib (pos d) m).0 ≡ ok base)
        × (entry v (pos i) ≡ ok (d ∷ flags ∷ (base + entry_offset e) ∷ size ∷ (i * size) ∷ [])))
      × Listed v (suc i) rest

  AllDescribed-Listed :
      (pairs : List (ℕ × ℕ)) (v : PlanView) (buf : Bytes) (i : ℕ)
      → i + length pairs ≤ v.count
      → ((at n : ℕ) → header_size ≤ at → slice v.buf at n ≡ slice buf at n)
      → AllDescribed lib m size buf i pairs
      → Listed v i pairs
  AllDescribed-Listed [] v buf i h same a = tt
  AllDescribed-Listed ((e, d) ∷ rest) v buf i h same
        ((flags, base, valid, flag, found, back), later) =
      (
        (
          flags,
          base,
          valid,
          flag,
          found,
          entry_lem v i (omega arith)
              ∙ ap (λ b. ok (unpack entry_widths b)) (same (entry_at i) entry_size (omega arith))
              ∙ ap ok back,
        ),
        AllDescribed-Listed rest v buf (suc i) (omega arith) same later,
      )

-- What `plan` needs: no more tokens than the limit, an entry of the table for each of them, a header
-- that has its width, and what each entry of the view needs.
abbrev pub Plannable : (lib : UmmLib) → State lib → ℤ → List ℤ → Type 0
Plannable lib (s, m) layer tokens =
    (length tokens ≤ s.max_topk)
    × ((entries : List ℕ) × (header : Bytes) × (Slots.gather s.table layer tokens ≡ ok entries)
        × (pack (header_fields (length tokens) (pos_part layer)) ≡ ok header)
        × AllFit lib m s.unit_size 0
            (zip entries (Strategy.locate_batch m.0.placement (keys_of layer tokens))))

-- The outcome of `plan`: if it returns a view, then the table had an entry for each token, the view
-- has as many entries in the order of the tokens, each as `Listed`, and its header is their count
-- and the layer; if it raises, then something that it needs is missing. Neither the media nor the
-- devices have changed.
abbrev pub Viewed : (lib : UmmLib) → State lib → ℤ → List ℤ → Result PlanView × State lib → Type 0
Viewed lib (s, m) layer tokens (err e, s') = (s'.1 ≡ m) × ¬ (Plannable lib (s, m) layer tokens)
Viewed lib (s, m) layer tokens (ok v, (s', m')) =
    (entries : List ℕ) × (Slots.gather s.table layer tokens ≡ ok entries)
    × (length entries ≡ length tokens)
    × (v.count ≡ length tokens)
    × Listed lib m s.unit_size v 0
        (zip entries (Strategy.locate_batch m.0.placement (keys_of layer tokens)))
    × (unpack (4 ∷ 4 ∷ 8 ∷ []) (slice v.buf 0 header_size)
        ≡ length tokens ∷ pos_part layer ∷ 0 ∷ [])
    × (m' ≡ m)

module _ (lib : UmmLib) (s : Store) (m : Media.State lib) (layer : ℤ) (tokens : List ℤ) where
  view_packed :
      (entries : List ℕ) (s' : Store) (bytes : Bytes)
      → Slots.gather s.table layer tokens ≡ ok entries
      → header_size + length tokens * entry_size ≤ length s.desc_buf
      → Kept lib m s.unit_size s header_size (s', m)
      → AllDescribed lib m s.unit_size s'.desc_buf 0
          (zip entries (Strategy.locate_batch m.0.placement (keys_of layer tokens)))
      → pack (header_fields (length tokens) (pos_part layer)) ≡ ok bytes
      → let s'' = record s' { desc_buf = splice s'.desc_buf 0 bytes } in
        Viewed lib (s, m) layer tokens (ok (view_of s'' (length tokens) layer), (s'', m))
  view_packed entries s' bytes found fits kept all packed =
      let (n, back) = unpack-pack (header_fields (length tokens) (pos_part layer)) bytes packed in
      let pairs = zip entries (Strategy.locate_batch m.0.placement (keys_of layer tokens)) in
      let count : length entries ≡ length tokens =
        length-gather s.table layer tokens entries found in
      let room : 0 + length bytes ≤ length s'.desc_buf = omega (arith, kept.2) in
      let buf : Bytes = splice s'.desc_buf 0 bytes in
      (
        entries,
        found,
        count,
        refl,
        AllDescribed-Listed lib m s.unit_size pairs
            (view_of (record s' { desc_buf = buf }) (length tokens) layer) s'.desc_buf 0
            (omega (
              arith,
              length-zip entries (Strategy.locate_batch m.0.placement (keys_of layer tokens)),
              length-locate_batch m.0.placement (keys_of layer tokens),
              length-map layer tokens,
            ))
            (λ at k h. slice-splice_after s'.desc_buf 0 bytes at k room (omega arith)) all,
        ap (unpack (4 ∷ 4 ∷ 8 ∷ []))
              (ap (slice buf 0) (sym n) ∙ slice-splice_self s'.desc_buf 0 bytes room)
            ∙ back,
        refl,
      )

  abbrev put_header : Action (State lib) PlanView
  put_header = do
    pack_into lib 0 (header_fields (length tokens) (pos_part layer))
    s' ← gets (λ s. s.0)
    pure (view_of s' (length tokens) layer)

  header-Viewed :
      (entries : List ℕ) (r : Result (Unit {0}) × State lib)
      → Slots.gather s.table layer tokens ≡ ok entries
      → header_size + length tokens * entry_size ≤ length s.desc_buf
      → Planned lib m s 0
          (zip entries (Strategy.locate_batch m.0.placement (keys_of layer tokens)))
          r
      → Viewed lib (s, m) layer tokens (continue r.0 (λ _. put_header) r.1)
  unfolding pack_into
  header-Viewed entries (err why, s') found fits (still, blocked) = (
    still,
    λ (few, (entries', header, found', packed, fit)).
        let same : entries' ≡ entries = cc (found, found') in
        blocked (
          subst
            (λ es.
              AllFit lib m s.unit_size 0
                (zip es (Strategy.locate_batch m.0.placement (keys_of layer tokens))))
            same fit),
  )
  header-Viewed entries (ok _, (s', m')) found fits (kept, all) =
      subst (λ x. Viewed lib (s, m) layer tokens (put_header (s', x))) (sym kept.0)
        (by_bytes (pack (header_fields (length tokens) (pos_part layer))) refl)
    where
      by_bytes :
          (q : Result Bytes)
          → pack (header_fields (length tokens) (pos_part layer)) ≡ q
          → Viewed lib (s, m) layer tokens (put_header (s', m))
      by_bytes (err why) e =
          rw e (refl, λ (few, (entries', header, found', packed, fit)). cc (e, packed))
      by_bytes (ok bytes) e =
          rw e (view_packed entries s' bytes found fits (refl, kept.1, kept.2, kept.3) all e)

  -- When the descriptor buffer has room for `max_topk` entries, the outcome of `plan` is as `Viewed`;
  -- so `plan` returns a view whenever what it needs is there.
  pub plan-Viewed :
      header_size + s.max_topk * entry_size ≤ length s.desc_buf
      → Viewed lib (s, m) layer tokens (plan lib layer tokens (s, m))
  unfolding plan
  plan-Viewed room = elim (Bool-cases (ltb s.max_topk (length tokens))) [
    | inl many ↦ rw many (refl, λ plannable. ground (arith, many, plannable.0))
    | inr few ↦ rw few (by_entries (Slots.gather s.table layer tokens) refl (ground arith))
  ]
    where
      by_entries :
          (q : Result (List ℕ))
          → Slots.gather s.table layer tokens ≡ q
          → length tokens ≤ s.max_topk
          → Viewed lib
              (s, m)
              layer
              tokens
              (continue q
                (λ entries (x : State lib).
                  continue
                    (plan_entries lib 0
                      (zip entries (Strategy.locate_batch m.0.placement (keys_of layer tokens)))
                      x).0
                    (λ _. put_header)
                    (plan_entries lib 0
                      (zip entries (Strategy.locate_batch m.0.placement (keys_of layer tokens)))
                      x).1)
                (s, m))
      by_entries (err why) e few =
          (refl, λ (few', (entries', header, found', packed, fit)). cc (e, found'))
      by_entries (ok entries) e few =
          let pairs = zip entries (Strategy.locate_batch m.0.placement (keys_of layer tokens)) in
          header-Viewed entries (plan_entries lib 0 pairs (s, m)) e (omega arith) (
            plan_entries-Planned lib m pairs s 0 (
              omega (
                arith,
                length-gather s.table layer tokens entries e,
                length-zip entries (Strategy.locate_batch m.0.placement (keys_of layer tokens)),
                length-locate_batch m.0.placement (keys_of layer tokens),
                length-map layer tokens,
              )))
