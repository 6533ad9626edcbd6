-- ===== src/SlotTable/Grid.antt =====
-- `self._layers[l][t]`: one array of tokens for each layer.
use ummwith_client.Prelude.{
  ℕ, zero, suc, ◌<◌, ◌≡◌, ◌≢◌, ◌⊎◌, inl, inr, refl, Option, none, some, List, [], ◌∷◌, arith,
  length, get_elem?, set, All, All-set, All-get_elem?, length-set, get_elem?-set_self,
  get_elem?-set_ne, get_elem?-some,
}

abbrev pub or_none {ℓ κ} : {A : Type ℓ} {B : Type κ} → Option A → (A → Option B) → Option B
or_none none f = none
or_none (some a) f = f a

module _ {ℓ} {A : Type ℓ} where
  -- The item in row `i` at column `j`.
  unfoldable pub cell : List (List A) → ℕ → ℕ → Option A
  cell rows i j = or_none (get_elem? rows i) (λ row. get_elem? row j)

  -- A write out of bounds changes nothing.
  unfoldable pub write : List (List A) → ℕ → ℕ → A → List (List A)
  write [] i j v = []
  write (row ∷ rows) zero j v = set row j v ∷ rows
  write (row ∷ rows) (suc i) j v = row ∷ write rows i j v

  pub length-write :
      (rows : List (List A)) (i j : ℕ) (v : A) → length (write rows i j v) ≡ length rows
  unfolding write
  length-write [] i j v = refl
  length-write (row ∷ rows) zero j v = refl
  length-write (row ∷ rows) (suc i) j v = omega (arith, length-write rows i j v)

  pub cell-write_self :
      (rows : List (List A)) (i j : ℕ) (v old : A)
      → cell rows i j ≡ some old
      → cell (write rows i j v) i j ≡ some v
  unfolding cell write
  cell-write_self [] i j v old h = cc
  cell-write_self (row ∷ rows) zero j v old h = get_elem?-set_self row j v (in_range row j old h)
    where
      in_range : (xs : List A) (k : ℕ) (a : A) → get_elem? xs k ≡ some a → k < length xs
      in_range [] k a e = cc
      in_range (x ∷ xs) zero a e = omega arith
      in_range (x ∷ xs) (suc k) a e = omega (arith, in_range xs k a e)
  cell-write_self (row ∷ rows) (suc i) j v old h = cell-write_self rows i j v old h

  pub cell-write_ne :
      (rows : List (List A)) (i j k l : ℕ) (v : A)
      → (i ≢ k) ⊎ (j ≢ l)
      → cell (write rows i j v) k l ≡ cell rows k l
  unfolding cell write
  cell-write_ne [] i j k l v h = refl
  cell-write_ne (row ∷ rows) zero j zero l v (inl h) = absurd (h refl)
  cell-write_ne (row ∷ rows) zero j zero l v (inr h) = get_elem?-set_ne row j l v h
  cell-write_ne (row ∷ rows) zero j (suc k) l v h = refl
  cell-write_ne (row ∷ rows) (suc i) j zero l v h = refl
  cell-write_ne (row ∷ rows) (suc i) j (suc k) l v h = cell-write_ne rows i j k l v (shift h)
    where
      shift : (suc i ≢ suc k) ⊎ (j ≢ l) → (i ≢ k) ⊎ (j ≢ l)
      shift (inl n) = inl (λ e. n (omega arith))
      shift (inr n) = inr n

module _ (m : ℕ) (P : ℕ → Type 0) where
  -- A row of `m` items, each with the property.
  abbrev pub IsRow : List ℕ → Type 0
  IsRow row = (length row ≡ m) × All P row

  pub write-IsRow :
      (rows : List (List ℕ)) (i j v : ℕ) → All IsRow rows → P v → All IsRow (write rows i j v)
  unfolding write
  write-IsRow [] i j v h p = tt
  write-IsRow (row ∷ rows) zero j v h p =
      ((omega (arith, h.0.0, length-set row j v), All-set P row j v h.0.1 p), h.1)
  write-IsRow (row ∷ rows) (suc i) j v h p = (h.0, write-IsRow rows i j v h.1 p)

  pub cell-some :
      (rows : List (List ℕ)) (i j : ℕ)
      → All IsRow rows
      → i < length rows
      → j < m
      → (a : ℕ) × (cell rows i j ≡ some a) × P a
  unfolding cell
  cell-some [] i j h p q = absurd (omega arith)
  cell-some (row ∷ rows) zero j h p q =
      let (a, e) = get_elem?-some row j (omega arith) in (a, e, All-get_elem? P row j a h.0.1 e)
  cell-some (row ∷ rows) (suc i) j h p q = cell-some rows i j h.1 (omega arith) q
