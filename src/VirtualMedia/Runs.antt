-- ===== src/VirtualMedia/Runs.antt =====
-- `_merge_runs` of bmpclient/virtual_media.py: the units of one device, sorted by offset, cut into
-- runs that are read at once. An item is the position in the batch and the offset.
use ummwith_client.Prelude.{
  ℕ, ◌+◌, ◌-◌, ◌*◌, ◌≤◌, ◌<◌, ◌≡◌, refl, Bool, true, false, ◌&&◌, Option, none, some, List, [], ◌∷◌,
  ◌++◌, arith, leb, ◌==◌, length, length-append, All, Bool-cases, inl, inr, ◌∙◌, ap, subst, sym,
}

abbrev pub Item : Type 0
Item = ℕ × ℕ

-- The options of the constructor that steer the merging.
pub record Merging : Type 0 where
  pub unit_size : ℕ
  pub read_merge : Bool
  pub max_read_bytes : Option ℕ

-- `self._max_read_bytes is None or size <= self._max_read_bytes`
abbrev pub small_enough : Option ℕ → ℕ → Bool
small_enough none size = true
small_enough (some most) size = leb size most

-- The condition under which a unit at `off` joins the run from `first` to `last`.
abbrev pub joins : Merging → ℕ → ℕ → ℕ → Bool
joins c first last off =
    c.read_merge
    && off == last + c.unit_size
    && small_enough c.max_read_bytes (off + c.unit_size - first)

-- The loop, with the run `runs[-1]` and its first and last offset.
unfoldable pub grow_run : Merging → ℕ → ℕ → List Item → List Item → List (List Item)
grow_run c first last run [] = run ∷ []
grow_run c first last run ((pos, off) ∷ items) = elim (joins c first last off) [
  | true ↦ grow_run c first off (run ++ (pos, off) ∷ []) items
  | false ↦ run ∷ grow_run c off off ((pos, off) ∷ []) items
]

-- `_merge_runs`
unfoldable pub merge_runs : Merging → List Item → List (List Item)
unfolding grow_run
merge_runs c [] = []
merge_runs c ((pos, off) ∷ items) = grow_run c off off ((pos, off) ∷ []) items

abbrev pub concat : List (List Item) → List Item
concat [] = []
concat (run ∷ runs) = run ++ concat runs

append_assoc : (xs ys zs : List Item) → (xs ++ ys) ++ zs ≡ xs ++ (ys ++ zs)
append_assoc [] ys zs = refl
append_assoc (x ∷ xs) ys zs = ap (λ l. x ∷ l) (append_assoc xs ys zs)

-- Units that follow each other without a gap from `start` on.
abbrev pub IsRun : ℕ → ℕ → List Item → Type 0
IsRun unit start [] = Unit
IsRun unit start (x ∷ xs) = (x.1 ≡ start) × IsRun unit (start + unit) xs

abbrev pub Fits : Option ℕ → ℕ → Type 0
Fits none size = Unit
Fits (some most) size = size ≤ most

-- A run that one request reads: units without a gap, and no more bytes than allowed.
abbrev pub IsRequest : Merging → List Item → Type 0
IsRequest c run =
    (0 < length run)
    × Fits c.max_read_bytes (length run * c.unit_size)
    × ((start : ℕ) × IsRun c.unit_size start run)

module _ (c : Merging) where
  module _ (first last pos off : ℕ) (run items : List Item) where
    grow_run-join :
        joins c first last off ≡ true
        → grow_run c first last run ((pos, off) ∷ items)
          ≡ grow_run c first off (run ++ (pos, off) ∷ []) items
    unfolding grow_run
    grow_run-join e = ground arith

    grow_run-cut :
        joins c first last off ≡ false
        → grow_run c first last run ((pos, off) ∷ items)
          ≡ run ∷ grow_run c off off ((pos, off) ∷ []) items
    unfolding grow_run
    grow_run-cut e = ground arith

  grow_run-concat :
      (first last : ℕ) (run items : List Item)
      → concat (grow_run c first last run items) ≡ run ++ items
  grow_run-concat first last run [] = unfold grow_run in refl
  grow_run-concat first last run ((pos, off) ∷ items) = elim (Bool-cases (joins c first last off)) [
    | inl e ↦
        ap concat (grow_run-join first last pos off run items e)
        ∙ grow_run-concat first off (run ++ (pos, off) ∷ []) items
        ∙ append_assoc run ((pos, off) ∷ []) items
    | inr e ↦
        ap concat (grow_run-cut first last pos off run items e)
        ∙ ap (λ l. run ++ l) (grow_run-concat off off ((pos, off) ∷ []) items)
  ]

  IsRun-snoc :
      (start off pos : ℕ) (run : List Item)
      → IsRun c.unit_size start run
      → off ≡ start + length run * c.unit_size
      → IsRun c.unit_size start (run ++ (pos, off) ∷ [])
  IsRun-snoc start off pos [] r e = (omega arith, tt)
  IsRun-snoc start off pos (x ∷ xs) r e =
      (r.0, IsRun-snoc (start + c.unit_size) off pos xs r.1 (omega arith))

  Fits-joined :
      (most : Option ℕ) (size n : ℕ) → small_enough most size ≡ true → size ≡ n → Fits most n
  Fits-joined none size n e f = tt
  Fits-joined (some most) size n e f = ground arith

  grow_run-IsRequest :
      (first last : ℕ) (run items : List Item)
      → 0 < length run
      → Fits c.max_read_bytes (length run * c.unit_size)
      → Fits c.max_read_bytes c.unit_size
      → IsRun c.unit_size first run
      → last + c.unit_size ≡ first + length run * c.unit_size
      → All (IsRequest c) (grow_run c first last run items)
  grow_run-IsRequest first last run [] p f g r e = unfold grow_run in ((p, f, (first, r)), tt)
  grow_run-IsRequest first last run ((pos, off) ∷ items) p f g r e =
      elim (Bool-cases (joins c first last off)) [
        | inl j ↦ subst (All (IsRequest c)) (sym (grow_run-join first last pos off run items j)) (
            grow_run-IsRequest first off (run ++ (pos, off) ∷ []) items (omega (arith, longer))
              (Fits-joined c.max_read_bytes (off + c.unit_size - first) _ (room j) (total j)) g
              (IsRun-snoc first off pos run r (omega (arith, joined j))) (after j))
        | inr j ↦ subst (All (IsRequest c)) (sym (grow_run-cut first last pos off run items j)) (
          (p, f, (first, r)),
          grow_run-IsRequest off off ((pos, off) ∷ []) items (omega arith)
              (subst (Fits c.max_read_bytes) (omega arith) g) g (refl, tt) (omega arith),
        )
      ]
    where
      longer : length (run ++ (pos, off) ∷ []) ≡ length run + 1
      longer = length-append run ((pos, off) ∷ [])

      joined : joins c first last off ≡ true → off ≡ last + c.unit_size
      joined j = ground arith

      total :
          joins c first last off ≡ true
          → off + c.unit_size - first ≡ length (run ++ (pos, off) ∷ []) * c.unit_size
      total j = rw longer (omega (arith, joined j))

      after :
          joins c first last off ≡ true
          → off + c.unit_size ≡ first + length (run ++ (pos, off) ∷ []) * c.unit_size
      after j = rw longer (omega (arith, joined j))

      room :
          joins c first last off ≡ true
          → small_enough c.max_read_bytes (off + c.unit_size - first) ≡ true
      room j = ground arith

-- The runs are the items in their order, each run is one request's worth of units without a gap,
-- and none is larger than allowed, when one unit is not.
pub merge_runs-IsRequest :
    (c : Merging) (items : List Item)
    → Fits c.max_read_bytes c.unit_size
    → (concat (merge_runs c items) ≡ items) × All (IsRequest c) (merge_runs c items)
unfolding merge_runs
merge_runs-IsRequest c [] f = (refl, tt)
merge_runs-IsRequest c ((pos, off) ∷ items) f = (
  grow_run-concat c off off ((pos, off) ∷ []) items,
  grow_run-IsRequest c off off ((pos, off) ∷ []) items (omega arith)
      (subst (Fits c.max_read_bytes) (omega arith) f) f (refl, tt) (omega arith),
)
