-- ===== src/Allocator/Free.antt =====
-- What `ChunkBuffer.free` does: the range joins the free bytes, and the list stays canonical.
use ummwith_client.Prelude.{
  ℕ, suc, ◌+◌, ◌≤◌, ◌<◌, ◌≡◌, ◌≢◌, ℕ_discrete, refl, List, [], ◌∷◌, ◌++◌, arith, leb, Bool-cases,
  inl, inr, true, false, sym, ◌∙◌, ap, subst, All,
}
use ummwith_client.Allocator.ChunkBuffer.{
  Range, ChunkBuffer, insert_sorted, sort, merge_from, merge, buffer_free,
}
use ummwith_client.Allocator.Canonical.{byte_of, covers, IsOrdered, IsCanonical, covers_below}

-- Sorting and merging keep the bytes.
covers-insert_sorted :
    (r : Range) (rs : List Range) (b : ℕ)
    → covers (insert_sorted r rs) b ≡ byte_of r b + covers rs b
unfolding insert_sorted covers
covers-insert_sorted r [] b = refl
covers-insert_sorted r (x ∷ xs) b = ground (arith, covers-insert_sorted r xs b)

covers-sort : (rs : List Range) (b : ℕ) → covers (sort rs) b ≡ covers rs b
unfolding sort covers
covers-sort [] b = refl
covers-sort (r ∷ rs) b =
    covers-insert_sorted r (sort rs) b ∙ ap (λ (n : ℕ). byte_of r b + n) (covers-sort rs b)

covers-append : (xs ys : List Range) (b : ℕ) → covers (xs ++ ys) b ≡ covers xs b + covers ys b
unfolding covers
covers-append [] ys b = omega arith
covers-append (x ∷ xs) ys b = omega (arith, covers-append xs ys b)

module _ (o s p t : ℕ) (rs : List Range) where
  merge-joined : o + s ≡ p → merge_from (o, s) ((p, t) ∷ rs) ≡ merge_from (o, s + t) rs
  unfolding merge_from
  merge-joined e = ground arith

  merge-apart : o + s ≢ p → merge_from (o, s) ((p, t) ∷ rs) ≡ (o, s) ∷ merge_from (p, t) rs
  unfolding merge_from
  merge-apart e = ground arith

covers-merge_from :
    (r : Range) (rs : List Range) (b : ℕ) → covers (merge_from r rs) b ≡ byte_of r b + covers rs b
unfolding covers
covers-merge_from r [] b = unfold merge_from in refl
covers-merge_from (o, s) ((p, t) ∷ rs) b = elim (ℕ_discrete (o + s) p) [
  | yes joined ↦
      ap (λ l. covers l b) (merge-joined o s p t rs joined)
      ∙ ground (arith, covers-merge_from (o, s + t) rs b)
  | no apart ↦
      ap (λ l. covers l b) (merge-apart o s p t rs apart)
      ∙ ground (arith, covers-merge_from (p, t) rs b)
]

-- Merging an ordered list makes it canonical.
merge_from-IsCanonical :
    (low end : ℕ) (r : Range) (rs : List Range)
    → IsOrdered low end (r ∷ rs)
    → IsCanonical low end (merge_from r rs)
merge_from-IsCanonical low end r [] h = unfold merge_from in (h.0, h.1, h.2, tt)
merge_from-IsCanonical low end (o, s) ((p, t) ∷ rs) h = elim (ℕ_discrete (o + s) p) [
  | yes joined ↦ subst (IsCanonical low end) (sym (merge-joined o s p t rs joined)) (
      merge_from-IsCanonical low end (o, s + t) rs
        (h.0, omega arith, omega arith, subst (λ n. IsOrdered n end rs) (same_end joined) h.3.3))
  | no apart ↦ subst (IsCanonical low end) (sym (merge-apart o s p t rs apart)) (
    h.0,
    h.1,
    h.2,
    merge_from-IsCanonical (suc (o + s)) end (p, t) rs (omega arith, h.3.1, h.3.2, h.3.3),
  )
]
  where
    same_end : o + s ≡ p → p + t ≡ o + (s + t)
    same_end e = omega arith

insert_sorted-IsOrdered :
    (low end : ℕ) (x : Range) (rs : List Range)
    → low ≤ x.0
    → 0 < x.1
    → x.0 + x.1 ≤ end
    → ((b : ℕ) → x.0 ≤ b → b < x.0 + x.1 → covers rs b ≡ 0)
    → IsOrdered low end rs
    → IsOrdered low end (insert_sorted x rs)
unfolding insert_sorted
insert_sorted-IsOrdered low end x [] p q r free h = (p, q, r, tt)
insert_sorted-IsOrdered low end x ((o, s) ∷ rs) p q r free h = elim (Bool-cases (leb x.0 o)) [
  | inl before ↦ rw before (p, q, r, (ends_before before, h.1, h.2, h.3))
  | inr after ↦ rw after (
    h.0,
    h.1,
    h.2,
    insert_sorted-IsOrdered (o + s) end x rs (starts_after after) q r
        (λ b i j. rest_free b (free b i j)) h.3,
  )
]
  where
    rest_free : (b : ℕ) → covers ((o, s) ∷ rs) b ≡ 0 → covers rs b ≡ 0
    rest_free b e = unfold covers in omega arith

    ends_before : leb x.0 o ≡ true → x.0 + x.1 ≤ o
    ends_before e = unfold covers in ground (arith, free o)

    starts_after : leb x.0 o ≡ false → o + s ≤ x.0
    starts_after e = unfold covers in ground (arith, free x.0)

-- Ranges that do not overlap are sorted into order.
abbrev IsRanges : ℕ → List Range → Type 0
IsRanges end rs = All (λ (r : Range). (0 < r.1) × (r.0 + r.1 ≤ end)) rs

sort-IsOrdered :
    (end : ℕ) (rs : List Range)
    → IsRanges end rs
    → ((b : ℕ) → covers rs b ≤ 1)
    → IsOrdered 0 end (sort rs)
unfolding sort covers
sort-IsOrdered end [] h once = tt
sort-IsOrdered end (r ∷ rs) h once =
    insert_sorted-IsOrdered 0 end r (sort rs) (omega arith) h.0.0 h.0.1
      (λ b i j. ground (arith, once b, covers-sort rs b))
      (sort-IsOrdered end rs h.1 (λ b. omega (arith, once b)))

IsCanonical-IsRanges :
    (low end : ℕ) (rs : List Range) (r : Range)
    → IsCanonical low end rs
    → (0 < r.1)
    → (r.0 + r.1 ≤ end)
    → IsRanges end (rs ++ r ∷ [])
IsCanonical-IsRanges low end [] r c p q = ((p, q), tt)
IsCanonical-IsRanges low end (x ∷ xs) r c p q =
    ((c.1, c.2), IsCanonical-IsRanges (suc (x.0 + x.1)) end xs r c.3 p q)

canonical_once : (low end b : ℕ) (rs : List Range) → IsCanonical low end rs → covers rs b ≤ 1
unfolding covers
canonical_once low end b [] c = omega arith
canonical_once low end b (x ∷ xs) c = ground (
  arith,
  canonical_once (suc (x.0 + x.1)) end b xs c.3,
  covers_below (suc (x.0 + x.1)) end b xs c.3,
)

merge-IsCanonical : (end : ℕ) (rs : List Range) → IsOrdered 0 end rs → IsCanonical 0 end (merge rs)
merge-IsCanonical end [] h = tt
merge-IsCanonical end (r ∷ rs) h = merge_from-IsCanonical 0 end r rs h

covers-merge : (rs : List Range) (b : ℕ) → covers (merge rs) b ≡ covers rs b
unfolding covers
covers-merge [] b = refl
covers-merge (r ∷ rs) b = covers-merge_from r rs b

module _ (cb : ChunkBuffer) (offset size : ℕ) (c : IsCanonical 0 cb.total_size cb.free_list) where
  covers-joined :
      (b : ℕ)
      → covers (cb.free_list ++ (offset, size) ∷ []) b
        ≡ byte_of (offset, size) b + covers cb.free_list b
  covers-joined b =
      let last : covers ((offset, size) ∷ []) b ≡ byte_of (offset, size) b =
        unfold covers in omega arith in
      omega (arith, covers-append cb.free_list ((offset, size) ∷ []) b)

  -- When a range of the chunk that is not empty, and none of whose bytes is free, is freed, exactly its bytes join the
  -- free bytes, and the list is canonical again.
  pub buffer_free-IsCanonical :
      0 < size
      → offset + size ≤ cb.total_size
      → ((b : ℕ) → offset ≤ b → b < offset + size → covers cb.free_list b ≡ 0)
      → IsCanonical 0 cb.total_size (buffer_free cb offset size).free_list
        × ((b : ℕ)
            → covers (buffer_free cb offset size).free_list b
              ≡ byte_of (offset, size) b + covers cb.free_list b)
  unfolding buffer_free
  buffer_free-IsCanonical positive inside used =
      let all = cb.free_list ++ (offset, size) ∷ [] in
      (
        merge-IsCanonical cb.total_size (sort all) (
            sort-IsOrdered cb.total_size all
              (IsCanonical-IsRanges 0 cb.total_size cb.free_list (offset, size) c positive inside)
              (λ b.
                ground (
                  arith,
                  covers-joined b,
                  used b,
                  canonical_once 0 cb.total_size b cb.free_list c,
                ))),
        λ b. covers-merge (sort all) b ∙ covers-sort all b ∙ covers-joined b,
      )
