-- ===== src/ConcurrentIo/Grouping.antt =====
-- The groups that `_submit` cuts a batch into, against a filter of the batch by key.
use ummwith_client.Prelude.{
  ℕ, ◌≡◌, ◌≢◌, inl, inr, refl, sym, subst, true, false, List, [], ◌∷◌, ◌++◌, arith, ◌==◌,
  if◌then◌else◌, All, Bool-cases,
}
use mathlib.Core.List.{append_assoc, append-nil}
use ummwith_client.ConcurrentIo.Engine.{Config, Item, Groups, group_key, into_group, group_all}

-- The group of a key.
unfoldable pub items_at : ℕ → Groups → List Item
items_at k [] = []
items_at k ((j, items) ∷ rest) = if j == k then items else items_at k rest

-- The items of a batch with a key, in their order.
unfoldable pub with_key : Config → ℕ → List Item → List Item
with_key c k [] = []
with_key c k (x ∷ xs) = if group_key c x == k then x ∷ with_key c k xs else with_key c k xs

abbrev pub NoGroup : ℕ → Groups → Type 0
NoGroup k groups = All (λ (g : ℕ × List Item). g.0 ≢ k) groups

-- One group for a key.
abbrev pub OneEach : Groups → Type 0
OneEach [] = Unit
OneEach ((k, items) ∷ rest) = NoGroup k rest × OneEach rest

items_at-into_group :
    (k j : ℕ) (x : Item) (groups : Groups)
    → items_at k (into_group j x groups)
      ≡ (if j == k then items_at k groups ++ x ∷ [] else items_at k groups)
unfolding items_at into_group
items_at-into_group k j x [] = ground arith
items_at-into_group k j x ((i, items) ∷ rest) = ground (arith, items_at-into_group k j x rest)

-- The group of its key is there.
into_group-hit :
    (j : ℕ) (x : Item) (i : ℕ) (items : List Item) (rest : Groups)
    → (i == j) ≡ true
    → into_group j x ((i, items) ∷ rest) ≡ (i, items ++ x ∷ []) ∷ rest
unfolding into_group
into_group-hit j x i items rest e = rw e refl

into_group-miss :
    (j : ℕ) (x : Item) (i : ℕ) (items : List Item) (rest : Groups)
    → (i == j) ≡ false
    → into_group j x ((i, items) ∷ rest) ≡ (i, items) ∷ into_group j x rest
unfolding into_group
into_group-miss j x i items rest e = rw e refl

into_group-NoGroup :
    (k j : ℕ) (x : Item) (groups : Groups)
    → j ≢ k
    → NoGroup k groups
    → NoGroup k (into_group j x groups)
into_group-NoGroup k j x [] n h = unfold into_group in (n, tt)
into_group-NoGroup k j x ((i, items) ∷ rest) n (h, hs) = elim (Bool-cases (i == j)) [
  | inl e ↦ subst (NoGroup k) (sym (into_group-hit j x i items rest e)) (h, hs)
  | inr e ↦
      subst (NoGroup k) (sym (into_group-miss j x i items rest e))
        (h, into_group-NoGroup k j x rest n hs)
]

into_group-OneEach :
    (j : ℕ) (x : Item) (groups : Groups) → OneEach groups → OneEach (into_group j x groups)
into_group-OneEach j x [] h = unfold into_group in (tt, tt)
into_group-OneEach j x ((i, items) ∷ rest) (h, hs) = elim (Bool-cases (i == j)) [
  | inl e ↦ subst OneEach (sym (into_group-hit j x i items rest e)) (h, hs)
  | inr e ↦
      subst OneEach (sym (into_group-miss j x i items rest e))
        (into_group-NoGroup i j x rest (ground (arith, e)) h, into_group-OneEach j x rest hs)
]

items_at-group_all :
    (c : Config) (k : ℕ) (xs : List Item) (groups : Groups)
    → items_at k (group_all c xs groups) ≡ items_at k groups ++ with_key c k xs
unfolding group_all with_key
items_at-group_all c k [] groups = sym (append-nil (items_at k groups))
items_at-group_all c k (x ∷ xs) groups = ground (
  arith,
  items_at-group_all c k xs (into_group (group_key c x) x groups),
  items_at-into_group k (group_key c x) x groups,
  append_assoc (items_at k groups) (x ∷ []) (with_key c k xs),
)

group_all-OneEach :
    (c : Config) (xs : List Item) (groups : Groups)
    → OneEach groups
    → OneEach (group_all c xs groups)
unfolding group_all
group_all-OneEach c [] groups h = h
group_all-OneEach c (x ∷ xs) groups h =
    group_all-OneEach c xs (into_group (group_key c x) x groups)
      (into_group-OneEach (group_key c x) x groups h)

-- A batch is cut into groups with distinct keys, and the group of a key is the items with that key,
-- in the order of the batch.
pub group_all_lem :
    (c : Config) (xs : List Item)
    → OneEach (group_all c xs []) × ((k : ℕ) → items_at k (group_all c xs []) ≡ with_key c k xs)
group_all_lem c xs =
    (group_all-OneEach c xs [] tt, λ k. unfold items_at in items_at-group_all c k xs [])
