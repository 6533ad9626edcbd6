-- ===== src/Ppa/Swaps.antt =====
-- What `select` of scripts/ppa_selection.py gives.
use ummwith_client.Prelude.{
  ℕ, zero, suc, ◌+◌, ◌≤◌, ◌≡◌, refl, ap, sym, subst, ◌∙◌, ◌==◌, Bool, true, false, Bool-cases, inl,
  inr, none, some, Option-cases, List, [], ◌∷◌, ◌++◌, if◌then◌else◌, length, length-append, All,
  arith,
}
use ummwith_client.Prelude.SortedSet.{member, insert_token}
use ummwith_client.Prelude.Dict.{dict_get}
use ummwith_client.Ppa.Counter.{Resource, count_of, count_all, objective}
use ummwith_client.Ppa.Squares.{Separate, objective-falls}
use ummwith_client.Ppa.Mapping.{Row, resources}
use ummwith_client.Ppa.Pressure.{without, remove_token}
use ummwith_client.Ppa.Sets.{
  Once, sum_of, one_without, length-without, length-sum_of, member-remove_token, Once-remove_token,
  Once-insert_token,
}
use ummwith_client.Ppa.Recount.{Is, hits_of, row_hits, all-Is, change_of-Is}
use ummwith_client.Ppa.Objectives.{Separate-count_all}
use ummwith_client.Ppa.Ranking as Ranking
use ummwith_client.Ppa.Selection as Selection
use ummwith_client.Ppa.Ranking.{Scores}
use ummwith_client.Ppa.Choices.{removals-All, additions-All, Lowers, best_swap-Lowers}
use ummwith_client.Ppa.Swapped.{
  change_of-Separate, sum_of-swap, member-swap, miss_hits, swapped_in, swapped_in-append, differs,
}

module _ (scores : Scores) where
  abbrev pub Entry : Type 0
  Entry = Ranking.Entry scores

  abbrev pub Plan : Type 0
  Plan = Selection.Plan scores

  module _ (resident : List ℕ) (info : List (ℕ × Row ℕ)) (Old New : ℕ → Type 0)
      (old_misses : (t : ℕ) → Old t → member t resident ≡ false)
      (new_misses : (t : ℕ) → New t → member t resident ≡ false) where
    abbrev pub HasRow : Entry → Type 0
    HasRow e = dict_get e.token info ≡ some e.row

    abbrev pub MayGo : List ℕ → Entry → Type 0
    MayGo selected e = (member e.token selected ≡ true) × Old e.token × HasRow e

    abbrev pub MayCome : List ℕ → Entry → Type 0
    MayCome selected e = (member e.token selected ≡ false) × New e.token × HasRow e

    abbrev pub Swapped : ℕ × ℕ → Type 0
    Swapped (old, new) = Old old × New new

    -- The loop keeps the number of the selected tokens and of those that are not resident, and which of the
    -- resident ones are selected; each swap lowers the objective.
    pub record IsKept (native : List ℕ) (initial done : ℕ) (p : Plan) : Type 0 where
      pub once : Once p.selected
      pub size : length p.selected ≡ length native
      pub misses : length (without resident p.selected) ≡ length (without resident native)
      pub hits : (t : ℕ) → member t resident ≡ true → member t p.selected ≡ member t native
      pub made : (t : ℕ) → member t p.selected ≡ swapped_in t p.exchanges (member t native)
      pub goes : All (MayGo p.selected) p.removable
      pub comes : All (MayCome p.selected) p.available
      pub swapped : All Swapped p.exchanges
      pub counted : length p.exchanges ≡ done
      pub known :
          (t : ℕ)
          → member t p.selected ≡ true
          → member t resident ≡ false
          → (row : Row ℕ) × (dict_get t info ≡ some row)
      pub separate : Separate p.loads
      pub tallied :
          (j : Resource) → Is (count_of j p.loads) (sum_of (miss_hits resident info j) p.selected) 0
      pub falls : objective p.loads + done ≤ initial

    goes-after :
        (old new : ℕ) (selected : List ℕ) (es : List Entry)
        → All (MayGo selected) es
        → All
            (MayGo (insert_token new (remove_token old selected)))
            (Selection.remove_entry scores old es)
    unfolding Selection.remove_entry
    goes-after old new selected [] h = tt
    goes-after old new selected (e ∷ es) ((there, may, row), h) =
        elim (Bool-cases (e.token == old)) [
          | inl q ↦ rw q (goes-after old new selected es h)
          | inr q ↦ rw q (
            (ground (arith, q, there, member-swap old new e.token selected), may, row),
            goes-after old new selected es h,
          )
        ]

    comes-after :
        (old new : ℕ) (selected : List ℕ) (es : List Entry)
        → All (MayCome selected) es
        → All
            (MayCome (insert_token new (remove_token old selected)))
            (Selection.remove_entry scores new es)
    unfolding Selection.remove_entry
    comes-after old new selected [] h = tt
    comes-after old new selected (e ∷ es) ((absent, may, row), h) =
        elim (Bool-cases (e.token == new)) [
          | inl q ↦ rw q (comes-after old new selected es h)
          | inr q ↦ rw q (
            (ground (arith, q, absent, member-swap old new e.token selected), may, row),
            comes-after old new selected es h,
          )
        ]

    after_swap :
        (xs : List (ℕ × ℕ)) (x : ℕ × ℕ) → All Swapped xs → Swapped x → All Swapped (xs ++ x ∷ [])
    after_swap [] x h s = (s, tt)
    after_swap (y ∷ xs) x (p, h) s = (p, after_swap xs x h s)

    hits_after :
        (old new t : ℕ) (selected native : List ℕ)
        → Old old
        → New new
        → (member t resident ≡ true → member t selected ≡ member t native)
        → member t resident ≡ true
        → member t (insert_token new (remove_token old selected)) ≡ member t native
    hits_after old new t selected native goes comes same r =
        let other = differs old t resident (old_misses old goes) r in
        let other' = differs new t resident (new_misses new comes) r in
        ground (arith, other, other', member-swap old new t selected, same r)

    known_after :
        (old : ℕ) (new : Entry) (t : ℕ) (selected : List ℕ)
        → HasRow new
        → (member t selected ≡ true → (row : Row ℕ) × (dict_get t info ≡ some row))
        → member t (insert_token new.token (remove_token old selected)) ≡ true
        → (row : Row ℕ) × (dict_get t info ≡ some row)
    known_after old new t selected row known there = elim (Bool-cases (new.token == t)) [
      | inl e ↦
          let same : new.token ≡ t = ground (arith, e) in
          (new.row, ap (λ (x : ℕ). dict_get x info) (sym same) ∙ row)
      | inr e ↦ known (ground (arith, there, e, member-swap old new.token t selected))
    ]

    tallied_after :
        (j : Resource) (s : Selection.Swap scores) (p : Plan)
        → Once p.selected
        → Lowers scores (MayGo p.selected) (MayCome p.selected) p.loads (some s)
        → Is (count_of j p.loads) (sum_of (miss_hits resident info j) p.selected) 0
        → Is
            (count_of j (count_all s.change p.loads))
            (sum_of
              (miss_hits resident info j)
              (insert_token s.new.token (remove_token s.old.token p.selected)))
            0
    tallied_after j s p once ((there, goes, row), (absent, comes, row'), change, falls) before =
        let part : Is (count_of j s.change) (hits_of j (resources s.new.row))
            (hits_of j (resources s.old.row)) =
          rw change (change_of-Is j s.old.row s.new.row) in
        let separate : Separate s.change = rw change (change_of-Separate s.old.row s.new.row) in
        let old_hits : miss_hits resident info j s.old.token ≡ hits_of j (resources s.old.row) =
          rw (old_misses s.old.token goes, row, miss_hits, row_hits) refl in
        let new_hits : miss_hits resident info j s.new.token ≡ hits_of j (resources s.new.row) =
          rw (new_misses s.new.token comes, row', miss_hits, row_hits) refl in
        omega (
          arith,
          all-Is j s.change p.loads _ _ _ _ separate before part,
          old_hits,
          new_hits,
          sum_of-swap (miss_hits resident info j) s.old.token s.new.token p.selected there absent
              once,
        )

    apply_swap-IsKept :
        (native : List ℕ) (initial done : ℕ) (p : Plan) (s : Selection.Swap scores)
        → IsKept native initial done p
        → Lowers scores (MayGo p.selected) (MayCome p.selected) p.loads (some s)
        → IsKept native initial (suc done) (Selection.apply_swap scores s p)
    unfolding Selection.apply_swap
    apply_swap-IsKept native initial done p s k
          ((there, goes, row), (absent, comes, row'), change, falls) =
        let old : ℕ = s.old.token in
        let new : ℕ = s.new.token in
        let out = old_misses old goes in
        let out' = new_misses new comes in
        let gone : member new (remove_token old p.selected) ≡ false =
          ground (arith, absent, member-remove_token old new p.selected) in
        let selected : List ℕ = insert_token new (remove_token old p.selected) in
        let separate : Separate s.change =
          subst Separate (sym change) (change_of-Separate s.old.row s.new.row) in
        record {
          once =
              Once-insert_token new (remove_token old p.selected) gone
                (Once-remove_token old p.selected k.once);
          size = omega (
            arith,
            length-sum_of selected,
            sum_of-swap (λ t. 1) old new p.selected there absent k.once,
            length-sum_of p.selected,
            k.size,
          );
          misses =
              let same : one_without resident old ≡ one_without resident new =
                rw (out, out') refl in
              omega (
                arith,
                same,
                length-without resident selected,
                sum_of-swap (one_without resident) old new p.selected there absent k.once,
                length-without resident p.selected,
                k.misses,
              );
          hits = λ t r. hits_after old new t p.selected native goes comes (k.hits t) r;
          made = λ t.
              member-swap old new t p.selected
              ∙ ap (λ (b : Bool). if new == t then true else if old == t then false else b)
                  (k.made t)
              ∙ sym (swapped_in-append t old new p.exchanges (member t native));
          goes = goes-after old new p.selected p.removable k.goes;
          comes = comes-after old new p.selected p.available k.comes;
          swapped = after_swap p.exchanges (old, new) k.swapped (goes, comes);
          counted = length-append p.exchanges ((old, new) ∷ []) ∙ omega (arith, k.counted);
          known = λ t there' r.
              known_after old s.new t p.selected row' (λ held. k.known t held r) there';
          separate = Separate-count_all s.change p.loads k.separate;
          tallied = λ j.
              tallied_after j s p k.once ((there, goes, row), (absent, comes, row'), change, falls)
                (k.tallied j);
          falls = omega (arith, k.falls, objective-falls s.change p.loads separate falls);
        }

    -- The loop makes as many swaps as the budget at most.
    pub rounds-IsKept :
        (n : ℕ) (native : List ℕ) (initial done : ℕ) (p : Plan)
        → IsKept native initial done p
        → (done' : ℕ) × (done' ≤ done + n)
          × IsKept native initial done' (Selection.rounds scores n p)
    unfolding Selection.rounds
    rounds-IsKept zero native initial done p k = (done, omega arith, k)
    rounds-IsKept (suc n) native initial done p k =
        let best =
          Selection.best_swap scores p.loads (Selection.removals scores p.loads p.removable)
            (Selection.additions scores p.loads p.available) none in
        let lowers : Lowers scores (MayGo p.selected) (MayCome p.selected) p.loads best =
          best_swap-Lowers scores (MayGo p.selected) (MayCome p.selected) p.loads
            (Selection.removals scores p.loads p.removable)
            (Selection.additions scores p.loads p.available) none
            (removals-All scores (MayGo p.selected) p.loads p.removable k.goes)
            (additions-All scores (MayCome p.selected) p.loads p.available k.comes) tt in
        elim (Option-cases best) [
          | inl e ↦ rw (e, Selection.rounds) (done, omega arith, k)
          | inr (s, e) ↦
              let found =
                subst (Lowers scores (MayGo p.selected) (MayCome p.selected) p.loads) e lowers in
              let (done', few, after) =
                rounds-IsKept n native initial (suc done) (Selection.apply_swap scores s p)
                  (apply_swap-IsKept native initial done p s k found) in
              rw (e, Selection.rounds) (done', omega (arith, few), after)
        ]
