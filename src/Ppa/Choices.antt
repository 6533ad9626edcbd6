-- ===== src/Ppa/Choices.antt =====
-- What `select` of scripts/ppa_selection.py swaps: an entry that may go for one that may come, and a change of
-- negative delta.
use ummwith_client.Prelude.{
  ◌≡◌, refl, Bool, true, Bool-cases, inl, inr, Option, none, some, List, [], ◌∷◌, take, All,
  All-take,
}
use ummwith_client.Prelude.Int.{is_neg}
use ummwith_client.Ppa.Counter.{Resource, same_resource, Counter, change_delta}
use ummwith_client.Ppa.Mapping.{plane_of}
use ummwith_client.Ppa.Pressure.{insert_by, sort_by, change_of}
use ummwith_client.Ppa.Ranking as Ranking
use ummwith_client.Ppa.Selection as Selection
use ummwith_client.Ppa.Ranking.{Scores}

module _ {A : Type 0} (P : A → Type 0) where
  All-insert_by :
      (before : A → A → Bool) (x : A) (xs : List A) → P x → All P xs → All P (insert_by before x xs)
  unfolding insert_by
  All-insert_by before x [] p h = (p, tt)
  All-insert_by before x (y ∷ ys) p (q, h) = elim (Bool-cases (before x y)) [
    | inl e ↦ rw e (p, (q, h))
    | inr e ↦ rw e (q, All-insert_by before x ys p h)
  ]

  All-sort_by :
      (before : A → A → Bool) (sorted xs : List A)
      → All P sorted
      → All P xs
      → All P (sort_by before sorted xs)
  unfolding sort_by
  All-sort_by before sorted [] done h = done
  All-sort_by before sorted (x ∷ xs) done (p, h) =
      All-sort_by before (insert_by before x sorted) xs (All-insert_by before x sorted p done) h

module _ (scores : Scores) where
  abbrev Entry : Type 0
  Entry = Ranking.Entry scores

  abbrev Swap : Type 0
  Swap = Selection.Swap scores

  module _ (P : Entry → Type 0) where
    Kept : Resource × Entry → Type 0
    Kept (k, e) = P e

    All-put_best :
        (better : Entry → Entry → Bool) (e : Entry) (found : List (Resource × Entry))
        → P e
        → All Kept found
        → All Kept (Selection.put_best scores better e found)
    unfolding Selection.put_best Kept
    All-put_best better e [] p h = (p, tt)
    All-put_best better e ((k, f) ∷ rest) p (q, h) =
        elim (Bool-cases (same_resource k (plane_of e.row))) [
          | inl same ↦ elim (Bool-cases (better e f)) [
            | inl b ↦ rw (same, b) (p, h)
            | inr b ↦ rw (same, b) (q, h)
          ]
          | inr other ↦ rw other (q, All-put_best better e rest p h)
        ]

    All-groups :
        (better : Entry → Entry → Bool) (es : List Entry) (found : List (Resource × Entry))
        → All P es
        → All Kept found
        → All Kept (Selection.groups scores better es found)
    unfolding Selection.groups
    All-groups better [] found h done = done
    All-groups better (e ∷ es) found (p, h) done =
        All-groups better es (Selection.put_best scores better e found) h
          (All-put_best better e found p done)

    All-values_of :
        (found : List (Resource × Entry))
        → All Kept found
        → All P (Selection.values_of scores found)
    unfolding Kept
    All-values_of [] h = tt
    All-values_of ((k, e) ∷ found) (p, h) = (p, All-values_of found h)

    abbrev All-best :
        (better : Entry → Entry → Bool) (before : Entry → Entry → Bool) (es : List Entry)
        → All P es
        → All P (
            take 16 (
              sort_by before []
                (Selection.values_of scores (Selection.groups scores better es []))))
    All-best better before es h =
        let found = Selection.groups scores better es [] in
        let sorted = sort_by before [] (Selection.values_of scores found) in
        All-take P 16 sorted (
          All-sort_by P before [] (Selection.values_of scores found) tt
            (All-values_of found (All-groups better es [] h tt)))

    pub removals-All :
        (loads : Counter) (es : List Entry) → All P es → All P (Selection.removals scores loads es)
    unfolding Selection.removals
    removals-All loads es h =
        All-best (Selection.worse scores) (Selection.removal_before scores loads) es h

    pub additions-All :
        (loads : Counter) (es : List Entry) → All P es → All P (Selection.additions scores loads es)
    unfolding Selection.additions
    additions-All loads es h =
        All-best (Selection.better scores) (Selection.addition_before scores loads) es h

  module _ (P Q : Entry → Type 0) (loads : Counter) where
    -- A swap of an entry with P for one with Q, that lowers the objective.
    abbrev pub Lowers : Option Swap → Type 0
    Lowers none = Unit
    Lowers (some s) =
        P s.old
        × Q s.new
        × (s.change ≡ change_of s.old.row s.new.row)
        × (is_neg (change_delta loads s.change) ≡ true)

    consider-Lowers :
        (old new : Entry) (best : Option Swap)
        → P old
        → Q new
        → Lowers best
        → Lowers (Selection.consider scores (Selection.swap_of scores loads old new) best)
    unfolding Selection.consider Selection.swap_of
    consider-Lowers old new none p q h =
        elim (Bool-cases (is_neg (change_delta loads (change_of old.row new.row)))) [
          | inl e ↦ rw (e, Lowers) (p, q, refl, e)
          | inr e ↦ rw (e, Lowers) tt
        ]
    consider-Lowers old new (some b) p q h =
        let s = Selection.swap_of scores loads old new in
        elim (Bool-cases (is_neg (change_delta loads (change_of old.row new.row)))) [
          | inl e ↦ elim (Bool-cases (Selection.swap_before scores s b)) [
            | inl f ↦ rw (e, f, Lowers) (p, q, refl, e)
            | inr f ↦ rw (e, f, Lowers) h
          ]
          | inr e ↦ rw (e, Lowers) h
        ]

    best_new-Lowers :
        (old : Entry) (news : List Entry) (best : Option Swap)
        → P old
        → All Q news
        → Lowers best
        → Lowers (Selection.best_new scores loads old news best)
    unfolding Selection.best_new
    best_new-Lowers old [] best p h done = done
    best_new-Lowers old (new ∷ news) best p (q, h) done =
        best_new-Lowers old news
          (Selection.consider scores (Selection.swap_of scores loads old new) best) p h
          (consider-Lowers old new best p q done)

    pub best_swap-Lowers :
        (olds news : List Entry) (best : Option Swap)
        → All P olds
        → All Q news
        → Lowers best
        → Lowers (Selection.best_swap scores loads olds news best)
    unfolding Selection.best_swap
    best_swap-Lowers [] news best h k done = done
    best_swap-Lowers (old ∷ olds) news best (p, h) k done =
        best_swap-Lowers olds news (Selection.best_new scores loads old news best) h k
          (best_new-Lowers old news best p k done)
