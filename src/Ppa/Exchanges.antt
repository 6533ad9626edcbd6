-- ===== src/Ppa/Exchanges.antt =====
-- The swaps of `select` of scripts/ppa_selection.py.
use ummwith_client.Prelude.{
  ℕ, ◌+◌, ◌≤◌, ◌≡◌, refl, ap, sym, ◌∙◌, true, false, Bool-cases, inl, inr, some, ok, List, [], ◌∷◌,
  length, All, All-map, arith,
}
use ummwith_client.Prelude.Dict.{dict_get}
use ummwith_client.Prelude.SortedSet.{member, insert_token, sorted_set, member-sorted_set}
use ummwith_client.Ppa.Counter.{Resource, Counter, count_of, objective}
use ummwith_client.Ppa.Mapping.{Row}
use ummwith_client.Ppa.Pressure.{without, pressure}
use ummwith_client.Ppa.Sets.{sum_of, member-without, sorted_set-Once}
use ummwith_client.Ppa.Ranking as Ranking
use ummwith_client.Ppa.Selection as Selection
use ummwith_client.Ppa.Ranking.{Scores}
use ummwith_client.Ppa.Squares.{Separate}
use ummwith_client.Ppa.Recount.{Is, Is-unique, row_hits, pressure-Is}
use ummwith_client.Ppa.Objectives.{
  objective_same, pressure_total, pressure-known, pressure-Separate,
}
use ummwith_client.Ppa.Swaps.{IsKept, rounds-IsKept}
use ummwith_client.Ppa.Swapped.{swapped_in, miss_hits}
use ummwith_client.Ppa.Entries.{
  All-of-member, Entry, Candidates, Held, entries-All, removable-All, new_token, Goes, Comes,
  scored_tokens,
}

-- The resident tokens: those of the cache and the current one.
abbrev pub residents : ℕ → List ℕ → List ℕ
residents current cached = insert_token current (sorted_set cached)

module _ (scores : Scores) where
  -- A number is the objective of the pressure of some tokens.
  abbrev pub Counts : List (ℕ × Row ℕ) → List ℕ → ℕ → Type 0
  Counts info ts n = (loads : Counter) × (pressure info ts [] ≡ ok loads) × (objective loads ≡ n)

  -- What `select` gives: the native tokens after the swaps, as many, with as many misses and the same resident
  -- ones; the swaps, as many as the budget at most; the objectives of the misses before and after, and the
  -- second lower by one at least for each swap.
  abbrev pub Exchanged :
      List ℕ
      → List ℕ
      → Candidates scores
      → List (ℕ × Row ℕ)
      → ℕ
      → ℕ
      → Selection.Selection scores
      → Type 0
  Exchanged native resident rows info budget protect_top sel =
      ((t : ℕ) → member t sel.selected ≡ swapped_in t sel.exchanges (member t native))
      × (length sel.selected ≡ length (sorted_set native))
      × (length (without resident sel.selected) ≡ length (without resident (sorted_set native)))
      × ((t : ℕ) → member t resident ≡ true → member t sel.selected ≡ member t native)
      × All
          (λ (pair : ℕ × ℕ).
            Goes scores native resident rows protect_top pair.0
            × Comes scores native resident rows pair.1)
          sel.exchanges
      × (length sel.exchanges ≤ budget)
      × Counts info (without resident (sorted_set native)) sel.initial
      × Counts info (without resident sel.selected) sel.final
      × (sel.final + length sel.exchanges ≤ sel.initial)

  miss_sum :
      (info : List (ℕ × Row ℕ)) (resident : List ℕ) (j : Resource) (ts : List ℕ)
      → sum_of (row_hits info j) (without resident ts) ≡ sum_of (miss_hits resident info j) ts
  unfolding without
  miss_sum info resident j [] = refl
  miss_sum info resident j (t ∷ ts) = elim (Bool-cases (member t resident)) [
    | inl e ↦ rw (e, miss_hits) (omega (arith, miss_sum info resident j ts))
    | inr e ↦ rw (e, miss_hits) (omega (arith, miss_sum info resident j ts))
  ]

  -- Counts that are those of the misses have the objective of their pressure.
  recounted :
      (info : List (ℕ × Row ℕ)) (resident selected : List ℕ) (kept : Counter)
      → Separate kept
      → ((t : ℕ)
          → member t selected ≡ true
          → member t resident ≡ false
          → (row : Row ℕ) × (dict_get t info ≡ some row))
      → ((j : Resource) → Is (count_of j kept) (sum_of (miss_hits resident info j) selected) 0)
      → Counts info (without resident selected) (objective kept)
  recounted info resident selected kept separate known tallied =
      let (loads, counts, separate') =
        pressure_total info (without resident selected) [] tt (λ t there.
          let among = member-without t resident selected in
          known t (ground (arith, there, among)) (ground (arith, there, among))) in
      (loads, counts, objective_same loads kept separate' separate (λ j. same loads counts j))
    where
      same :
          (loads : Counter)
          → pressure info (without resident selected) [] ≡ ok loads
          → (j : Resource) → count_of j loads ≡ count_of j kept
      same loads counts j =
          let anew =
            pressure-Is info j (without resident selected) [] loads 0 0 (unfold count_of in refl)
              counts in
          Is-unique (count_of j loads) (count_of j kept)
            (sum_of (miss_hits resident info j) selected) 0
            (omega (arith, anew, miss_sum info resident j selected)) (tallied j)

  reshaped :
      (P Q : ℕ → Type 0) (info : List (ℕ × Row ℕ)) (es : List (Entry scores))
      → All (Held scores (λ (t : ℕ). P t × Q t) info) es
      → All (λ (e : Entry scores). P e.token × Q e.token × (dict_get e.token info ≡ some e.row)) es
  reshaped P Q info es h = All-map _ _ es (λ e ((p, q), row). (p, q, row)) h

  pub plan-Exchanged :
      (native resident : List ℕ) (rows : Candidates scores) (budget protect_top : ℕ)
      (info : List (ℕ × Row ℕ)) (loads : Counter)
      → pressure info (without resident (sorted_set native)) [] ≡ ok loads
      → Exchanged native resident rows info budget protect_top (
          Selection.selection_of scores loads (
            Selection.rounds scores budget (
              Selection.start_plan scores
                (sorted_set native)
                rows
                protect_top
                resident
                info
                loads)))
  plan-Exchanged native resident rows budget protect_top info loads passed =
      let selected : List ℕ = sorted_set native in
      let ordered = Ranking.scored scores rows in
      let score = Ranking.score_dict scores ordered [] in
      let rank = Ranking.ranks scores 0 ordered [] in
      let Old : ℕ → Type 0 = Goes scores native resident rows protect_top in
      let New : ℕ → Type 0 = Comes scores native resident rows in
      let start : IsKept scores resident info Old New (λ t o. o.1) (λ t n. n.1) selected
          (objective loads) 0
          (Selection.start_plan scores selected rows protect_top resident info loads) =
        record {
          once = sorted_set-Once native;
          size = refl;
          misses = refl;
          hits = λ t r. refl;
          made = λ t. refl;
          goes = reshaped _ _ info _ (
              entries-All scores (λ (t : ℕ). (member t selected ≡ true) × Old t) score info
                (Ranking.removable_tokens scores rank protect_top resident selected)
                (All-map _ _ (Ranking.removable_tokens scores rank protect_top resident selected)
                  (λ t (there, miss, behind).
                    (there, (sym (member-sorted_set t native) ∙ there, miss, behind)))
                  (removable-All scores rank protect_top resident
                    (λ (t : ℕ). member t selected ≡ true) selected
                    (All-of-member (λ (t : ℕ). member t selected ≡ true) selected
                      (λ t there. there)))));
          comes = reshaped _ _ info _ (
              entries-All scores (λ (t : ℕ). (member t selected ≡ false) × New t) score info _
                (All-of-member _
                  (without resident (without selected (sorted_set (scored_tokens scores rows))))
                  (λ t there. new_token scores native resident rows t there)));
          known = λ t there r.
              pressure-known info (without resident selected) [] loads passed t
                (ground (arith, there, r, member-without t resident selected));
          separate = pressure-Separate info (without resident selected) loads passed;
          tallied = λ j. omega (
            arith,
            pressure-Is info j (without resident selected) [] loads 0 0 (unfold count_of in refl)
                passed,
            miss_sum info resident j selected,
          );
          swapped = tt;
          counted = refl;
          falls = omega arith;
        } in
      let after =
        Selection.rounds scores budget
          (Selection.start_plan scores selected rows protect_top resident info loads) in
      let (done, few, kept) =
        rounds-IsKept scores resident info Old New (λ t o. o.1) (λ t n. n.1) budget selected
          (objective loads) 0 _ start in
      (
        (λ t. kept.made t ∙ ap (swapped_in t after.exchanges) (member-sorted_set t native)),
        kept.size,
        kept.misses,
        (λ t r. kept.hits t r ∙ member-sorted_set t native),
        kept.swapped,
        omega (arith, few, kept.counted),
        (loads, passed, refl),
        recounted info resident _ _ kept.separate kept.known kept.tallied,
        omega (arith, kept.falls, kept.counted),
      )
