-- ===== src/Ppa/Entries.antt =====
-- What the entries of `select` of scripts/ppa_selection.py are, at the start.
use ummwith_client.Prelude.{
  ℕ, ◌≡◌, refl, sym, subst, true, false, Bool-cases, inl, inr, none, some, Option-cases, List, [],
  ◌∷◌, map, All, All-append, arith,
}
use ummwith_client.Prelude.Dict.{dict_get}
use ummwith_client.Prelude.SortedSet.{member, sorted_set, member-sorted_set}
use ummwith_client.Ppa.Mapping.{Row}
use ummwith_client.Ppa.Pressure.{without}
use ummwith_client.Ppa.Sets.{member-without}
use ummwith_client.Ppa.Ranking as Ranking
use ummwith_client.Ppa.Ranking.{Scores}

pub All-of-member : (P : ℕ → Type 0) (ts : List ℕ) → ((t : ℕ) → member t ts ≡ true → P t) → All P ts
All-of-member P [] h = tt
All-of-member P (x ∷ xs) h =
    (h x (ground arith), All-of-member P xs (λ t there. h t (ground (arith, there))))

module _ (scores : Scores) where
  open scores use {Score}

  abbrev pub Entry : Type 0
  Entry = Ranking.Entry scores

  abbrev pub Candidates : Type 0
  Candidates = List (Ranking.Candidate scores)

  -- An entry whose token passes, with the row of the token.
  abbrev pub Held : (ℕ → Type 0) → List (ℕ × Row ℕ) → Entry → Type 0
  Held P info e = P e.token × (dict_get e.token info ≡ some e.row)

  entry_of-All :
      (P : ℕ → Type 0) (score : List (ℕ × Score)) (info : List (ℕ × Row ℕ)) (t : ℕ)
      → P t
      → All (Held P info) (Ranking.entry_of scores score info t)
  unfolding Ranking.entry_of
  entry_of-All P score info t p = elim (Option-cases (dict_get t score)) [
    | inl e ↦ subst (All (Held P info)) (sym (no_score e)) tt
    | inr (s, e) ↦ elim (Option-cases (dict_get t info)) [
      | inl f ↦ subst (All (Held P info)) (sym (no_row e f)) tt
      | inr (row, f) ↦ subst (All (Held P info)) (sym (both e f)) ((p, f), tt)
    ]
  ]
    where
      no_score : dict_get t score ≡ none → Ranking.entry_of scores score info t ≡ []
      no_score e = rw (e, Ranking.entry_of) refl

      no_row :
          {s : Score}
          → dict_get t score ≡ some s
          → dict_get t info ≡ none
          → Ranking.entry_of scores score info t ≡ []
      no_row e f = rw (e, f, Ranking.entry_of) refl

      both :
          {s : Score} {row : Row ℕ}
          → dict_get t score ≡ some s
          → dict_get t info ≡ some row
          → Ranking.entry_of scores score info t ≡ record { token = t; score = s; row = row } ∷ []
      both e f = rw (e, f, Ranking.entry_of) refl

  pub entries-All :
      (P : ℕ → Type 0) (score : List (ℕ × Score)) (info : List (ℕ × Row ℕ)) (ts : List ℕ)
      → All P ts
      → All (Held P info) (Ranking.entries scores score info ts)
  unfolding Ranking.entries
  entries-All P score info [] h = tt
  entries-All P score info (t ∷ ts) (p, h) =
      All-append (Held P info) (Ranking.entry_of scores score info t)
        (Ranking.entries scores score info ts) (entry_of-All P score info t p)
        (entries-All P score info ts h)

  -- The tokens that have a score.
  abbrev pub scored_tokens : Candidates → List ℕ
  scored_tokens rows = map (λ (r : ℕ × Score). r.0) (Ranking.scored scores rows)

  -- What a token that goes is: a native miss with a score, behind the protected prefix; and what one that
  -- comes is: a scored miss that is not native.
  abbrev pub Goes : List ℕ → List ℕ → Candidates → ℕ → ℕ → Type 0
  Goes native resident rows protect_top t =
      (member t native ≡ true)
      × (member t resident ≡ false)
      × (Ranking.unprotected scores (Ranking.ranks scores 0 (Ranking.scored scores rows) [])
            protect_top t
          ≡ true)

  abbrev pub Comes : List ℕ → List ℕ → Candidates → ℕ → Type 0
  Comes native resident rows t =
      (member t native ≡ false)
      × (member t resident ≡ false)
      × (member t (scored_tokens rows) ≡ true)

  pub removable-All :
      (rank : List (ℕ × ℕ)) (protect_top : ℕ) (resident : List ℕ) (P : ℕ → Type 0) (ts : List ℕ)
      → All P ts
      → All
          (λ (t : ℕ).
            P t
            × (member t resident ≡ false)
            × (Ranking.unprotected scores rank protect_top t ≡ true))
          (Ranking.removable_tokens scores rank protect_top resident ts)
  unfolding Ranking.removable_tokens
  removable-All rank protect_top resident P [] h = tt
  removable-All rank protect_top resident P (t ∷ ts) (p, h) =
      elim (Bool-cases (member t resident)) [
        | inl e ↦ rw e (removable-All rank protect_top resident P ts h)
        | inr e ↦ elim (Bool-cases (Ranking.unprotected scores rank protect_top t)) [
          | inl q ↦ rw (e, q) ((p, e, q), removable-All rank protect_top resident P ts h)
          | inr q ↦ rw (e, q) (removable-All rank protect_top resident P ts h)
        ]
      ]

  pub new_token :
      (native resident : List ℕ) (rows : Candidates) (t : ℕ)
      → member t (without resident (without (sorted_set native) (sorted_set (scored_tokens rows))))
        ≡ true
      → (member t (sorted_set native) ≡ false) × Comes native resident rows t
  new_token native resident rows t h =
      let known = member-sorted_set t native in
      let scored = member-sorted_set t (scored_tokens rows) in
      let outer =
        member-without t resident (without (sorted_set native) (sorted_set (scored_tokens rows))) in
      let inner = member-without t (sorted_set native) (sorted_set (scored_tokens rows)) in
      (
        ground (arith, h, outer, inner),
        (
          ground (arith, h, outer, inner, known),
          ground (arith, h, outer),
          ground (arith, h, outer, inner, scored),
        ),
      )
