-- ===== src/Allocator/ChunkBuffer.antt =====
-- `ChunkBuffer` of bmpclient/allocator.py: first fit on a list of free ranges, and the merge of
-- neighbours when a range is freed.
use ummwith_client.Prelude.{
  ℕ, ◌+◌, ◌-◌, Bool, true, false, ◌&&◌, Option, none, some, List, [], ◌∷◌, ◌++◌, leb, ◌==◌,
  if◌then◌else◌,
}

-- A free range: its offset and its size.
abbrev pub Range : Type 0
Range = ℕ × ℕ

-- The two values of `media_type` that `FineGrainedAllocator.alloc` lets through.
pub data Media : Type 0 where
  dram ssd : Media

pub record ChunkBuffer : Type 0 where
  pub chunk_id : ℕ
  pub base_gpa : ℕ
  pub total_size : ℕ
  pub media_type : Media
  pub device_idx : Option ℕ
  pub free_list : List Range

-- A new buffer; `__post_init__` puts the whole chunk on an empty free list.
abbrev pub new_buffer : ℕ → ℕ → ℕ → Media → Option ℕ → ChunkBuffer
new_buffer chunk_id base_gpa total_size media_type device_idx = record {
  chunk_id = chunk_id;
  base_gpa = base_gpa;
  total_size = total_size;
  media_type = media_type;
  device_idx = device_idx;
  free_list = (0, total_size) ∷ [];
}

abbrev pub keep_range : Range → Option (ℕ × List Range) → Option (ℕ × List Range)
keep_range r none = none
keep_range r (some (offset, rest)) = some (offset, r ∷ rest)

-- The loop of `alloc`: the offset in the first range that is large enough, and the list left.
unfoldable pub first_fit : ℕ → List Range → Option (ℕ × List Range)
first_fit size [] = none
first_fit size ((offset, free_size) ∷ rest) =
    let later = first_fit size rest in
    if leb size free_size
    then some
        (offset, (if free_size == size then rest else (offset + size, free_size - size) ∷ rest))
    else keep_range (offset, free_size) later

-- `alloc`
unfoldable pub buffer_alloc : ChunkBuffer → ℕ → Option (ℕ × ChunkBuffer)
buffer_alloc cb size = elim (first_fit size cb.free_list) [
  | none ↦ none
  | some (offset, rest) ↦ some (offset, record cb { free_list = rest })
]

-- Python's stable sort by offset: an item goes before the items that it is not greater than.
unfoldable pub insert_sorted : Range → List Range → List Range
insert_sorted r [] = r ∷ []
insert_sorted r (x ∷ xs) = if leb r.0 x.0 then r ∷ x ∷ xs else x ∷ insert_sorted r xs

unfoldable pub sort : List Range → List Range
unfolding insert_sorted
sort [] = []
sort (r ∷ rs) = insert_sorted r (sort rs)

-- The loop of `free` over the sorted ranges; the first argument is `merged[-1]`.
unfoldable pub merge_from : Range → List Range → List Range
merge_from last [] = last ∷ []
merge_from (offset, size) ((off, sz) ∷ rest) = elim (offset + size == off) [
  | true ↦ merge_from (offset, size + sz) rest
  | false ↦ (offset, size) ∷ merge_from (off, sz) rest
]

abbrev pub merge : List Range → List Range
merge [] = []
merge (r ∷ rs) = merge_from r rs

-- `free`
unfoldable pub buffer_free : ChunkBuffer → ℕ → ℕ → ChunkBuffer
unfolding sort merge_from
buffer_free cb offset size = record cb {
  free_list = merge (sort (cb.free_list ++ (offset, size) ∷ []));
}

-- `len(list) == 1 and list[0] == (0, total)`
abbrev pub is_whole : ℕ → List Range → Bool
is_whole total [] = false
is_whole total (r ∷ []) = r.0 == 0 && r.1 == total
is_whole total (r ∷ x ∷ xs) = false

-- `is_fully_free`
unfoldable pub is_fully_free : ChunkBuffer → Bool
is_fully_free cb = is_whole cb.total_size cb.free_list
