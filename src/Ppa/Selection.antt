-- ===== src/Ppa/Selection.antt =====
-- `select` of scripts/ppa_selection.py. Nothing depends on the order in which the source walks through a
-- set, as each choice has the token in its key. The budget and the protected prefix are not negative.
use ummwith_client.Prelude.{
  ℕ, zero, suc, ltb, ◌==◌, ◌&&◌, ◌||◌, Bool, Option, none, some, List, [], ◌∷◌, ◌++◌, if◌then◌else◌,
  take, map, Result, ok, ◌>>=◌,
}
use ummwith_client.Prelude.Int.{ℤ, pos, negsuc, is_neg}
use ummwith_client.Prelude.SortedSet.{insert_token, sorted_set}
use ummwith_client.Ppa.Counter.{
  Resource, same_resource, Counter, count_all, objective, change_delta,
}
use ummwith_client.Ppa.Mapping.{Row, resources, plane_of}
use ummwith_client.Ppa.Pressure.{
  without, remove_token, sort_by, first_by, pressure, change_of, load_cost,
}
use ummwith_client.Ppa.Ranking.{
  Scores, Candidate, Entry, lower, scored, ranks, score_dict, info_dict, entries, removable_tokens,
}

module _ (scores : Scores) where
  open scores use {Score, less, same, minus}

  -- The best entry of each plane.
  unfoldable pub put_best :
      (Entry scores → Entry scores → Bool)
      → Entry scores
      → List (Resource × Entry scores)
      → List (Resource × Entry scores)
  put_best better e [] = (plane_of e.row, e) ∷ []
  put_best better e ((k, f) ∷ rest) =
      if same_resource k (plane_of e.row)
      then (k, (if better e f then e else f)) ∷ rest
      else (k, f) ∷ put_best better e rest

  unfoldable pub groups :
      (Entry scores → Entry scores → Bool)
      → List (Entry scores)
      → List (Resource × Entry scores)
      → List (Resource × Entry scores)
  unfolding put_best
  groups better [] found = found
  groups better (e ∷ es) found = groups better es (put_best better e found)

  abbrev pub worse : Entry scores → Entry scores → Bool
  worse e f = lower scores e.score f.score (ltb f.token e.token)

  abbrev pub better : Entry scores → Entry scores → Bool
  better e f = lower scores f.score e.score (ltb e.token f.token)

  abbrev pub removal_before : Counter → Entry scores → Entry scores → Bool
  removal_before loads e f =
      first_by (load_cost (negsuc 0) loads (resources f.row))
        (load_cost (negsuc 0) loads (resources e.row))
        (lower scores e.score f.score (ltb e.token f.token))

  abbrev pub addition_before : Counter → Entry scores → Entry scores → Bool
  addition_before loads e f =
      first_by (load_cost (pos 1) loads (resources e.row))
        (load_cost (pos 1) loads (resources f.row))
        (lower scores f.score e.score (ltb e.token f.token))

  abbrev pub values_of : List (Resource × Entry scores) → List (Entry scores)
  values_of found = map (λ (kept : Resource × Entry scores). kept.1) found

  unfoldable pub removals : Counter → List (Entry scores) → List (Entry scores)
  unfolding groups sort_by load_cost
  removals loads removable =
      take 16 (sort_by (removal_before loads) [] (values_of (groups worse removable [])))

  unfoldable pub additions : Counter → List (Entry scores) → List (Entry scores)
  unfolding groups sort_by load_cost
  additions loads available =
      take 16 (sort_by (addition_before loads) [] (values_of (groups better available [])))

  pub record Swap : Type 0 where
    pub delta : ℤ
    pub loss : Score
    pub old : Entry scores
    pub new : Entry scores
    pub change : Counter

  unfoldable pub swap_of : Counter → Entry scores → Entry scores → Swap
  unfolding change_of change_delta
  swap_of loads old new = record {
    delta = change_delta loads (change_of old.row new.row);
    loss = minus old.score new.score;
    old = old;
    new = new;
    change = change_of old.row new.row;
  }

  -- `key < best[0]`
  abbrev pub swap_before : Swap → Swap → Bool
  swap_before a b = first_by a.delta b.delta (
      lower scores a.loss b.loss (
        ltb a.old.token b.old.token
        || ((a.old.token == b.old.token) && ltb a.new.token b.new.token)))

  -- `if delta < 0 and (best is None or key < best[0])`
  unfoldable pub consider : Swap → Option Swap → Option Swap
  consider s none = if is_neg s.delta then some s else none
  consider s (some b) = if is_neg s.delta && swap_before s b then some s else some b

  unfoldable pub best_new : Counter → Entry scores → List (Entry scores) → Option Swap → Option Swap
  unfolding swap_of consider
  best_new loads old [] best = best
  best_new loads old (new ∷ news) best =
      best_new loads old news (consider (swap_of loads old new) best)

  unfoldable pub best_swap :
      Counter → List (Entry scores) → List (Entry scores) → Option Swap → Option Swap
  unfolding best_new
  best_swap loads [] news best = best
  best_swap loads (old ∷ olds) news best = best_swap loads olds news (best_new loads old news best)

  pub record Plan : Type 0 where
    pub selected : List ℕ
    pub removable : List (Entry scores)
    pub available : List (Entry scores)
    pub loads : Counter
    pub exchanges : List (ℕ × ℕ)

  unfoldable pub remove_entry : ℕ → List (Entry scores) → List (Entry scores)
  remove_entry t [] = []
  remove_entry t (e ∷ es) = if e.token == t then remove_entry t es else e ∷ remove_entry t es

  unfoldable pub apply_swap : Swap → Plan → Plan
  unfolding remove_token insert_token remove_entry count_all
  apply_swap s p = record {
    selected = insert_token s.new.token (remove_token s.old.token p.selected);
    removable = remove_entry s.old.token p.removable;
    available = remove_entry s.new.token p.available;
    loads = count_all s.change p.loads;
    exchanges = p.exchanges ++ (s.old.token, s.new.token) ∷ [];
  }

  -- `for _ in range(budget)`
  unfoldable pub rounds : ℕ → Plan → Plan
  unfolding removals additions best_swap apply_swap
  rounds zero p = p
  rounds (suc n) p =
      elim (best_swap p.loads (removals p.loads p.removable) (additions p.loads p.available) none) [
        | none ↦ p
        | some s ↦ rounds n (apply_swap s p)
      ]

  -- What `select` returns.
  pub record Selection : Type 0 where
    pub selected : List ℕ
    pub exchanges : List (ℕ × ℕ)
    pub initial : ℕ
    pub final : ℕ

  abbrev pub start_plan :
      List ℕ → List (Candidate scores) → ℕ → List ℕ → List (ℕ × Row ℕ) → Counter → Plan
  start_plan selected rows protect_top resident info loads =
      let ordered = scored scores rows in
      let score = score_dict scores ordered [] in
      record {
        selected = selected;
        removable =
            entries scores score info
              (removable_tokens scores (ranks scores 0 ordered []) protect_top resident selected);
        available = entries scores score info (
            without resident
              (without selected (sorted_set (map (λ (r : ℕ × Score). r.0) ordered))));
        loads = loads;
        exchanges = [];
      }

  abbrev pub selection_of : Counter → Plan → Selection
  selection_of loads p = record {
    selected = p.selected;
    exchanges = p.exchanges;
    initial = objective loads;
    final = objective p.loads;
  }

  -- `select`
  unfoldable pub select :
      List ℕ → List (Candidate scores) → List ℕ → ℕ → ℕ → ℕ → List ℕ → Result Selection
  unfolding sorted_set scored ranks score_dict info_dict entries removable_tokens without pressure
      rounds objective
  select native rows mapping current budget protect_top cached = do
    let selected = sorted_set native
    let resident = insert_token current (sorted_set cached)
    info ← info_dict scores mapping rows []
    loads ← pressure info (without resident selected) []
    ok (
        selection_of loads
          (rounds budget (start_plan selected rows protect_top resident info loads)))
