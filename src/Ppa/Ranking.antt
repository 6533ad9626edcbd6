-- ===== src/Ppa/Ranking.antt =====
-- The candidates of `select` of scripts/ppa_selection.py: their scores, ranks and rows, and the tokens that may
-- be removed. What the dicts `score` and `info` hold for a token of `removable` or `available` stands in its
-- entry. Scores are floating point numbers: their comparisons and their subtraction are the fields of `Scores`.
use ummwith_client.Prelude.{
  ℕ, suc, ◌/◌, ltb, leb, ◌&&◌, Bool, false, not, Option, none, some, List, [], ◌∷◌, ◌++◌,
  if◌then◌else◌, Result, ok, err,
}
use ummwith_client.Prelude.Int.{pos}
use ummwith_client.Prelude.Dict.{dict_get, dict_set}
use ummwith_client.Prelude.SortedSet.{member}
use ummwith_client.Ppa.Mapping.{Row, get_row}
use ummwith_client.Ppa.Pressure.{sort_by}

pub record Scores : Type 1 where
  pub Score : Type 0
  pub less : Score → Score → Bool
  pub same : Score → Score → Bool
  pub minus : Score → Score → Score

-- `PAGE`
abbrev pub page_bytes : ℕ
page_bytes = 16384

module _ (scores : Scores) where
  open scores use {Score, less, same, minus}

  pub record Candidate : Type 0 where
    pub token : ℕ
    pub score : Option Score
    pub offset_bytes : ℕ

  -- `score[s] < score[t]`, and `rest` if these are equal.
  abbrev pub lower : Score → Score → Bool → Bool
  lower s t rest = if same s t then rest else less s t

  -- `scored`, before it is sorted, and its order.
  unfoldable pub with_score : List Candidate → List (ℕ × Score)
  with_score [] = []
  with_score (r ∷ rs) = elim r.score [
    | none ↦ with_score rs
    | some s ↦ (r.token, s) ∷ with_score rs
  ]

  abbrev pub scored_before : ℕ × Score → ℕ × Score → Bool
  scored_before (t, s) (u, v) = lower v s (ltb t u)

  unfoldable pub scored : List Candidate → List (ℕ × Score)
  unfolding with_score sort_by
  scored rows = sort_by scored_before [] (with_score rows)

  -- The dicts `rank`, `score` and `info`.
  unfoldable pub ranks : ℕ → List (ℕ × Score) → List (ℕ × ℕ) → List (ℕ × ℕ)
  ranks i [] dict = dict
  ranks i ((t, s) ∷ rest) dict = ranks (suc i) rest (dict_set t i dict)

  unfoldable pub score_dict : List (ℕ × Score) → List (ℕ × Score) → List (ℕ × Score)
  score_dict [] dict = dict
  score_dict ((t, s) ∷ rest) dict = score_dict rest (dict_set t s dict)

  unfoldable pub info_dict : List ℕ → List Candidate → List (ℕ × Row ℕ) → Result (List (ℕ × Row ℕ))
  info_dict mapping [] dict = ok dict
  info_dict mapping (r ∷ rs) dict = elim (get_row mapping (pos (r.offset_bytes / page_bytes))) [
    | err e ↦ err e
    | ok row ↦ info_dict mapping rs (dict_set r.token row dict)
  ]

  pub record Entry : Type 0 where
    pub token : ℕ
    pub score : Score
    pub row : Row ℕ

  -- A token with its score and its row.
  unfoldable pub entry_of : List (ℕ × Score) → List (ℕ × Row ℕ) → ℕ → List Entry
  entry_of score info t = elim (dict_get t score) [
    | none ↦ []
    | some s ↦ elim (dict_get t info) [
      | none ↦ []
      | some row ↦ record { token = t; score = s; row = row } ∷ []
    ]
  ]

  unfoldable pub entries : List (ℕ × Score) → List (ℕ × Row ℕ) → List ℕ → List Entry
  unfolding entry_of
  entries score info [] = []
  entries score info (t ∷ ts) = entry_of score info t ++ entries score info ts

  -- `t in rank and rank[t] >= protect_top`
  abbrev pub unprotected : List (ℕ × ℕ) → ℕ → ℕ → Bool
  unprotected rank protect_top t = elim (dict_get t rank) [
    | none ↦ false
    | some i ↦ leb protect_top i
  ]

  unfoldable pub removable_tokens : List (ℕ × ℕ) → ℕ → List ℕ → List ℕ → List ℕ
  removable_tokens rank protect_top resident [] = []
  removable_tokens rank protect_top resident (t ∷ ts) =
      if not (member t resident) && unprotected rank protect_top t
      then t ∷ removable_tokens rank protect_top resident ts
      else removable_tokens rank protect_top resident ts
