-- ===== src/Ppa/Mapping.antt =====
-- `DenseMapping` and `load_mapping` of scripts/ppa_selection.py, behind the reader of the CSV file, which
-- gives the eight columns of each row as integers. The array holds words of 64 bits.
use ummwith_client.Prelude.{
  ℕ, ◌*◌, ◌/◌, ◌^◌, leb, ◌==◌, ◌||◌, Bool, false, not, List, [], ◌∷◌, ◌++◌, if◌then◌else◌, length,
  take, drop, Result, ok, err, value_error, key_error, overflow_error, raise_if, ◌>>=◌, ◌>>◌,
}
use ummwith_client.Prelude.Int.{ℤ, pos, negsuc, is_neg, pos_part}
use ummwith_client.Prelude.SortedSet.{member}
use ummwith_client.Ppa.Counter.{Resource}

-- A row, by the names of the columns.
pub record Row (A : Type 0) : Type 0 where
  pub lpa : A
  pub ppa : A
  pub channel : A
  pub chip : A
  pub die : A
  pub plane : A
  pub block : A
  pub page : A

-- `len(self)`
abbrev pub row_count : List ℕ → ℕ
row_count cells = length cells / 8

-- `dict(zip(self.columns, ...))` of eight numbers.
unfoldable pub row_at : List ℕ → Result (Row ℕ)
row_at (a ∷ b ∷ c ∷ d ∷ e ∷ f ∷ g ∷ h ∷ rest) =
    ok (record { lpa = a; ppa = b; channel = c; chip = d; die = e; plane = f; block = g; page = h })
row_at cells = err key_error

-- `__getitem__`
unfoldable pub get_row : List ℕ → ℤ → Result (Row ℕ)
unfolding row_at
get_row cells (negsuc n) = err key_error
get_row cells (pos lpa) =
    if leb (row_count cells) lpa then err key_error else row_at (take 8 (drop (lpa * 8) cells))

abbrev pub values : {A : Type 0} → Row A → List A
values r = r.lpa ∷ r.ppa ∷ r.channel ∷ r.chip ∷ r.die ∷ r.plane ∷ r.block ∷ r.page ∷ []

-- `min(values) < 0`
unfoldable pub some_negative : List ℤ → Bool
some_negative [] = false
some_negative (x ∷ xs) = is_neg x || some_negative xs

-- `self.data.extend(values)`
unfoldable pub extend : List ℕ → List ℤ → Result (List ℕ)
extend cells [] = ok cells
extend cells (x ∷ xs) =
    let rest = extend (cells ++ pos_part x ∷ []) xs in
    if is_neg x || leb (2 ^ 64) (pos_part x) then err overflow_error else rest

-- The body of the loop.
unfoldable pub add_values : List ℕ → List ℕ → Row ℤ → Result (List ℕ)
unfolding some_negative extend
add_values cells seen r = do
  raise_if
      (is_neg r.lpa
        || not (pos_part r.lpa == row_count cells)
        || member (pos_part r.ppa) seen
        || some_negative (values r))
      value_error
  extend cells (values r)

unfoldable pub load_rows : List ℕ → List ℕ → List (Row ℤ) → Result (List ℕ)
unfolding add_values
load_rows cells seen [] = ok cells
load_rows cells seen (r ∷ rs) = do
  cells' ← add_values cells seen r
  load_rows cells' (pos_part r.ppa ∷ seen) rs

-- `load_mapping`
unfoldable pub load_mapping : List (Row ℤ) → Result (List ℕ)
unfolding load_rows
load_mapping rows = load_rows [] [] rows

-- `resources`: the tuples that lead to the plane.
abbrev pub resources : Row ℕ → List Resource
resources r =
    (r.channel ∷ [])
    ∷ (r.channel ∷ r.chip ∷ [])
    ∷ (r.channel ∷ r.chip ∷ r.die ∷ [])
    ∷ (r.channel ∷ r.chip ∷ r.die ∷ r.plane ∷ [])
    ∷ []

-- `resources(...)[-1]`
abbrev pub plane_of : Row ℕ → Resource
plane_of r = r.channel ∷ r.chip ∷ r.die ∷ r.plane ∷ []
