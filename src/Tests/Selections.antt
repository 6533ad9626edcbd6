-- ===== src/Tests/Selections.antt =====
-- Runs and instances for the selection of misses by their pages.
use ummwith_client.Prelude.{ℕ, ◌-◌, ◌==◌, ◌*◌, ltb, ◌≡◌, refl, some, List, [], ◌∷◌, ok}
use ummwith_client.Prelude.Int.{ℤ, pos, ◌+ℤ◌, ◌-ℤ◌, ◌*ℤ◌}
use ummwith_client.Prelude.Dict.{dict_get, dict_set}
use ummwith_client.Prelude.SortedSet.{sorted_set, insert_token}
use ummwith_client.Ppa.Counter.{
  same_resource, count_of, count_more, count_each, count_all, objective, count_delta, change_delta,
}
use ummwith_client.Ppa.Mapping.{
  Row, load_mapping, load_rows, add_values, some_negative, extend, get_row, row_at,
}
use ummwith_client.Ppa.Pressure.{
  without, remove_token, insert_by, sort_by, pressure, change_of, load_cost,
}
use ummwith_client.Ppa.Ranking as Ranking
use ummwith_client.Ppa.Selection as Selection
use ummwith_client.Ppa.Ranking.{Scores}
use ummwith_client.Ppa.Exchanges.{residents}
use ummwith_client.Ppa.Outcomes.{Outcome, select-Outcome}

abbrev scores : Scores
scores = record { Score = ℕ; less = ltb; same = ◌==◌; minus = ◌-◌ }

-- The pages 0 and 1 are on one plane, page 2 is on another channel.
abbrev row : ℕ → ℕ → Row ℤ
row lpa channel = record {
  lpa = pos lpa;
  ppa = pos lpa;
  channel = pos channel;
  chip = pos 0;
  die = pos 0;
  plane = pos 0;
  block = pos 0;
  page = pos lpa;
}

abbrev mapping : List ℕ
mapping =
    0 ∷ 0 ∷ 0 ∷ 0 ∷ 0 ∷ 0 ∷ 0 ∷ 0 ∷ 1 ∷ 1 ∷ 0 ∷ 0 ∷ 0 ∷ 0 ∷ 0 ∷ 1 ∷ 2 ∷ 2 ∷ 1 ∷ 0 ∷ 0 ∷ 0 ∷ 0 ∷ 2
    ∷ []

mapping_loads : load_mapping (row 0 0 ∷ row 1 0 ∷ row 2 1 ∷ []) ≡ ok mapping
unfolding load_mapping load_rows add_values some_negative extend
mapping_loads = refl

abbrev candidate : ℕ → ℕ → Ranking.Candidate scores
candidate token score = record { token = token; score = some score; offset_bytes = token * 4096 }

abbrev candidates : List (Ranking.Candidate scores)
candidates = candidate 0 9 ∷ candidate 4 7 ∷ candidate 8 5 ∷ candidate 9 3 ∷ []

-- The tokens 0 and 4 share a plane; 4 has the lower score and gives way to token 8.
select_run :
    Selection.select scores (4 ∷ 0 ∷ 3 ∷ []) candidates mapping 3 2 0 []
    ≡ ok (record { selected = 0 ∷ 3 ∷ 8 ∷ []; exchanges = (4, 8) ∷ []; initial = 16; final = 8 })
unfolding Selection.select Ranking.scored Ranking.with_score Ranking.ranks Ranking.score_dict
    Ranking.info_dict Ranking.entry_of Ranking.entries Ranking.removable_tokens Selection.put_best
    Selection.groups Selection.removals Selection.additions Selection.swap_of Selection.consider
    Selection.best_new Selection.best_swap Selection.remove_entry Selection.apply_swap
    Selection.rounds without remove_token insert_by sort_by pressure change_of load_cost
    same_resource count_of count_more count_each count_all objective count_delta change_delta
    get_row row_at dict_get dict_set sorted_set insert_token ◌+ℤ◌ ◌-ℤ◌ ◌*ℤ◌
select_run = refl

select-Outcome_example :
    Outcome scores
      (4 ∷ 0 ∷ 3 ∷ [])
      (residents 3 [])
      candidates
      mapping
      2
      0
      (Selection.select scores (4 ∷ 0 ∷ 3 ∷ []) candidates mapping 3 2 0 [])
select-Outcome_example = select-Outcome scores (4 ∷ 0 ∷ 3 ∷ []) candidates mapping 3 2 0 []
