-- ===== src/Ppa/Outcomes.antt =====
-- `select` of scripts/ppa_selection.py as a whole, errors included.
use ummwith_client.Prelude.{
  ℕ, suc, ◌/◌, ◌≡◌, refl, subst, true, false, inl, inr, ◌⊎◌, none, some, Option-cases, List, [],
  ◌∷◌, get_elem?, map, arith, Error, Result, Result-cases, ok, err, key_error,
}
use ummwith_client.Prelude.Int.{pos}
use ummwith_client.Prelude.Dict.{dict_get, dict_set, dict_get-dict_set}
use ummwith_client.Prelude.SortedSet.{member, sorted_set, member-sorted_set}
use ummwith_client.Ppa.Counter.{Counter}
use ummwith_client.Ppa.Mapping.{Row, get_row}
use ummwith_client.Ppa.Pressure.{without, pressure}
use ummwith_client.Ppa.Sets.{member-without}
use ummwith_client.Ppa.Ranking as Ranking
use ummwith_client.Ppa.Selection as Selection
use ummwith_client.Ppa.Ranking.{Scores}
use ummwith_client.Ppa.Entries.{Candidates}
use ummwith_client.Ppa.Exchanges.{residents, Exchanged, plan-Exchanged}

module _ (scores : Scores) where
  abbrev pub tokens : Candidates scores → List ℕ
  tokens rows = map (λ (r : Ranking.Candidate scores). r.token) rows

  -- A candidate whose row the mapping does not give.
  abbrev pub IsLost : List ℕ → Candidates scores → Error → Type 0
  IsLost mapping rows e =
      (i : ℕ) × (r : Ranking.Candidate scores) × (get_elem? rows i ≡ some r)
      × (get_row mapping (pos (r.offset_bytes / Ranking.page_bytes)) ≡ err e)

  InfoPost : List ℕ → Candidates scores → List (ℕ × Row ℕ) → Result (List (ℕ × Row ℕ)) → Type 0
  InfoPost mapping rows dict (ok info) =
      (t : ℕ) → dict_get t info ≡ none → (member t (tokens rows) ≡ false) × (dict_get t dict ≡ none)
  InfoPost mapping rows dict (err e) = IsLost mapping rows e

  after_row :
      (mapping : List ℕ) (r : Ranking.Candidate scores) (rs : Candidates scores)
      (dict : List (ℕ × Row ℕ)) (row : Row ℕ) (result : Result (List (ℕ × Row ℕ)))
      → InfoPost mapping rs (dict_set r.token row dict) result
      → InfoPost mapping (r ∷ rs) dict result
  unfolding InfoPost
  after_row mapping r rs dict row (ok info) h = λ t absent.
      let (rest, before) = h t absent in
      let set = dict_get-dict_set r.token t row dict in
      (ground (arith, rest, before, set), ground (arith, before, set))
  after_row mapping r rs dict row (err e) (i, x, at_i, lost) = (suc i, x, at_i, lost)

  info_dict-post :
      (mapping : List ℕ) (rows : Candidates scores) (dict : List (ℕ × Row ℕ))
      → InfoPost mapping rows dict (Ranking.info_dict scores mapping rows dict)
  unfolding Ranking.info_dict InfoPost
  info_dict-post mapping [] dict = λ t h. (refl, h)
  info_dict-post mapping (r ∷ rs) dict =
      elim (Result-cases (get_row mapping (pos (r.offset_bytes / Ranking.page_bytes)))) [
        | inr (e, found) ↦ rw (found, Ranking.info_dict, InfoPost) (0, r, refl, found)
        | inl (row, found) ↦
            rw (found, Ranking.info_dict)
              (after_row mapping r rs dict row
                (Ranking.info_dict scores mapping rs (dict_set r.token row dict))
                (info_dict-post mapping rs (dict_set r.token row dict)))
      ]

  PressurePost : List (ℕ × Row ℕ) → List ℕ → Result Counter → Type 0
  PressurePost info ts (ok loads) = Unit
  PressurePost info ts (err e) =
      (e ≡ key_error) × ((t : ℕ) × (member t ts ≡ true) × (dict_get t info ≡ none))

  pressure-post :
      (info : List (ℕ × Row ℕ)) (ts : List ℕ) (loads : Counter)
      → PressurePost info ts (pressure info ts loads)
  unfolding pressure PressurePost
  pressure-post info [] loads = tt
  pressure-post info (t ∷ ts) loads = elim (Option-cases (dict_get t info)) [
    | inl e ↦ rw (e, pressure, PressurePost) (refl, (t, ground arith, e))
    | inr (row, e) ↦ rw (e, pressure) (later (pressure info ts _) (pressure-post info ts _))
  ]
    where
      later : (r : Result Counter) → PressurePost info ts r → PressurePost info (t ∷ ts) r
      later (ok loads) h = tt
      later (err e) (key, (u, there, absent)) = (key, (u, ground (arith, there), absent))

  -- A native miss that is no candidate.
  abbrev pub IsUnlisted : List ℕ → List ℕ → Candidates scores → Type 0
  IsUnlisted native resident rows =
      (t : ℕ) × (member t native ≡ true)
      × (member t resident ≡ false)
      × (member t (tokens rows) ≡ false)

  abbrev pub Outcome :
      List ℕ
      → List ℕ
      → Candidates scores
      → List ℕ
      → ℕ
      → ℕ
      → Result (Selection.Selection scores)
      → Type 0
  Outcome native resident rows mapping budget protect_top (ok sel) =
      (info : List (ℕ × Row ℕ)) × (Ranking.info_dict scores mapping rows [] ≡ ok info)
      × Exchanged scores native resident rows info budget protect_top sel
  Outcome native resident rows mapping budget protect_top (err e) =
      IsLost mapping rows e ⊎ ((e ≡ key_error) × IsUnlisted native resident rows)

  -- `select` raises only what the mapping raises for a candidate, or a KeyError if a native miss is no candidate.
  -- Otherwise it returns the native tokens after some swaps, no more than the budget, each of an unprotected,
  -- scored native miss for a scored miss that is not native; there are as many tokens and as many misses as
  -- before, and the same resident tokens; and it returns the objectives of the pressure of the misses before and
  -- after, of which the second is lower by one at least for each swap.
  pub select-Outcome :
      (native : List ℕ) (rows : Candidates scores) (mapping : List ℕ)
      (current budget protect_top : ℕ) (cached : List ℕ)
      → Outcome native
          (residents current cached)
          rows
          mapping
          budget
          protect_top
          (Selection.select scores native rows mapping current budget protect_top cached)
  unfolding Selection.select InfoPost PressurePost
  select-Outcome native rows mapping current budget protect_top cached =
      let resident = residents current cached in
      let selected = sorted_set native in
      elim (Result-cases (Ranking.info_dict scores mapping rows [])) [
        | inr (e, found) ↦
            rw (found, Selection.select)
              (inl (subst (InfoPost mapping rows []) found (info_dict-post mapping rows [])))
        | inl (info, found) ↦
            let listed = subst (InfoPost mapping rows []) found (info_dict-post mapping rows []) in
            elim (Result-cases (pressure info (without resident selected) [])) [
              | inr (e, failed) ↦
                  let (key, (t, there, absent)) =
                    subst (PressurePost info (without resident selected)) failed
                      (pressure-post info (without resident selected) []) in
                  let among = member-without t resident selected in
                  let known = member-sorted_set t native in
                  rw (found, failed, Selection.select)
                    (inr (
                      key,
                      (
                        t,
                        ground (arith, there, among, known),
                        ground (arith, there, among),
                        (listed t absent).0,
                      ),
                    ))
              | inl (loads, passed) ↦
                  rw (found, passed, Selection.select)
                    (
                      info,
                      found,
                      plan-Exchanged scores native resident rows budget protect_top info loads
                          passed,
                    )
            ]
      ]
