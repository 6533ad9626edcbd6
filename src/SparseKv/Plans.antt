-- ===== src/SparseKv/Plans.antt =====
-- `plan`: what stands in the descriptor buffer afterwards.
use ummwith_client.Prelude.{
  ℕ, suc, ◌+◌, ◌*◌, ◌≤◌, ◌≡◌, refl, sym, subst, ap, ◌∙◌, List, [], ◌∷◌, arith, length, Result, ok,
  err, Bool-cases, inl, inr,
}
use ummwith_client.Prelude.Action.{continue}
use ummwith_client.Prelude.Int.{pos}
use ummwith_client.Prelude.Splice.{slice}
use ummwith_client.Umm.{Bytes, UmmLib}
use ummwith_client.SlotTable.Entry.{entry_offset}
use ummwith_client.VirtualMedia.Media as Media
use ummwith_client.SparseKv.Layout.{header_size, entry_size, entry_widths, unpack}
use ummwith_client.SparseKv.Store.{Store, State, entry_valid}
use ummwith_client.SparseKv.Planning.{stage_buffered, plan_entry, plan_entries}
use ummwith_client.SparseKv.Described.{
  entry_at, Described, AllDescribed, AllFit, Kept, stage_buffered-Staged, Entered, Staged-Entered,
}

module _ (lib : UmmLib) (m : Media.State lib) where
  plan_entry-Entered :
      (s : Store) (i e d : ℕ)
      → entry_at i + entry_size ≤ length s.desc_buf
      → Entered lib m s.unit_size s i e d (plan_entry lib i e d (s, m))
  unfolding plan_entry
  plan_entry-Entered s i e d fits = elim (Bool-cases (entry_valid e)) [
    | inl valid ↦ rw valid (
        Staged-Entered lib m s.unit_size s i e d
          (stage_buffered lib (pos d) (entry_offset e) (i * s.unit_size) (s, m)) fits valid
          (stage_buffered-Staged lib m s.unit_size s d (entry_offset e) (i * s.unit_size)))
    | inr not_valid ↦
        rw not_valid
          (refl, λ (flags, base, bytes, valid, flag, found, packed). cc (not_valid, valid))
  ]

  -- After the entries from `i` on: each of them is described, and what stands before them stays.
  abbrev pub Planned : Store → ℕ → List (ℕ × ℕ) → Result (Unit {0}) × State lib → Type 0
  Planned s i pairs (err why, s') = (s'.1 ≡ m) × ¬ (AllFit lib m s.unit_size i pairs)
  Planned s i pairs (ok _, s') =
      Kept lib m s.unit_size s (entry_at i) s'
      × AllDescribed lib m s.unit_size s'.0.desc_buf i pairs

  Described-same :
      (size i e d : ℕ) (buf buf' : Bytes)
      → slice buf' (entry_at i) entry_size ≡ slice buf (entry_at i) entry_size
      → Described lib m size buf i e d
      → Described lib m size buf' i e d
  Described-same size i e d buf buf' same (flags, base, valid, flag, found, back) =
      (flags, base, valid, flag, found, ap (unpack entry_widths) same ∙ back)

  then-Planned :
      (s : Store) (i e d : ℕ) (rest : List (ℕ × ℕ)) (s' : State lib)
      (r : Result (Unit {0}) × State lib)
      → Kept lib m s.unit_size s (entry_at i) s'
      → Described lib m s.unit_size s'.0.desc_buf i e d
      → Planned s'.0 (suc i) rest r
      → Planned s i ((e, d) ∷ rest) r
  then-Planned s i e d rest s' (err why, t) kept first (still, blocked) = (
    still,
    λ (now, rest_fits). blocked (subst (λ u. AllFit lib m u (suc i) rest) (sym kept.1) rest_fits),
  )
  then-Planned s i e d rest (s', m') (ok _, (t, n)) (still, units, wide, same) first
        ((still', units', wide', same'), later) =
      (
        (still', units' ∙ units, wide' ∙ wide, λ at k h. same' at k (omega arith) ∙ same at k h),
        (
          Described-same s.unit_size i e d s'.desc_buf t.desc_buf
              (same' (entry_at i) entry_size (omega arith)) first,
          subst (λ u. AllDescribed lib m u t.desc_buf (suc i) rest) units later,
        ),
      )

  pub plan_entries-Planned :
      (pairs : List (ℕ × ℕ)) (s : Store) (i : ℕ)
      → header_size + (i + length pairs) * entry_size ≤ length s.desc_buf
      → Planned s i pairs (plan_entries lib i pairs (s, m))
  unfolding plan_entries
  plan_entries-Planned [] s i fits = ((refl, refl, refl, λ at k h. refl), tt)
  plan_entries-Planned ((e, d) ∷ rest) s i fits =
      by_first (plan_entry lib i e d (s, m)) (plan_entry-Entered s i e d (omega arith))
        (λ t h. plan_entries-Planned rest t (suc i) h)
    where
      by_first :
          (r : Result (Unit {0}) × State lib)
          → Entered lib m s.unit_size s i e d r
          → ((t : Store)
              → header_size + (suc i + length rest) * entry_size ≤ length t.desc_buf
              → Planned t (suc i) rest (plan_entries lib (suc i) rest (t, m)))
          → Planned s i ((e, d) ∷ rest) (continue r.0 (λ _. plan_entries lib (suc i) rest) r.1)
      by_first (err why, s') (still, blocked) later = (still, λ (now, rest_fits). blocked now)
      by_first (ok _, (t, m')) (kept, first) later =
          subst (λ x. Planned s i ((e, d) ∷ rest) (plan_entries lib (suc i) rest (t, x)))
            (sym kept.0)
            (then-Planned s i e d rest (t, m') (plan_entries lib (suc i) rest (t, m)) kept first
              (later t (omega (arith, kept.2))))
