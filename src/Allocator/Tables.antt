-- ===== src/Allocator/Tables.antt =====
-- Lookup, insertion and removal in a table of chunks, and what `free` leaves of a chunk.
use ummwith_client.Prelude.{
  ℕ, ◌+◌, ◌-◌, ◌<◌, ◌≡◌, ◌≢◌, refl, List, [], ◌∷◌, arith, some, none, sym, subst, ℕ_discrete, true,
  inl, inr, ◌⊎◌, ◌∙◌, dec_lt,
}
use ummwith_client.Allocator.ChunkBuffer.{ChunkBuffer, buffer_free, is_fully_free}
use ummwith_client.Allocator.Canonical.{byte_of, covers, IsCanonical}
use ummwith_client.Allocator.Free.{buffer_free-IsCanonical}
use ummwith_client.Allocator.Whole.{is_fully_free_lem}
use ummwith_client.Allocator.Table.{Block, Chunks, find, put, remove}
use ummwith_client.Allocator.Held.{held, held-same, Own, Own-held, Absent, IsTable, IsTable-held}

module _ (id : ℕ) (cb : ChunkBuffer) (k : ℕ) (old : ChunkBuffer) (rest : Chunks) where
  pub find-here : k ≡ id → find id ((k, old) ∷ rest) ≡ some old
  unfolding find
  find-here e = ground arith

  pub find-there : k ≢ id → find id ((k, old) ∷ rest) ≡ find id rest
  unfolding find
  find-there e = ground arith

  put-here : k ≡ id → put id cb ((k, old) ∷ rest) ≡ (k, cb) ∷ rest
  unfolding put
  put-here e = ground arith

  put-there : k ≢ id → put id cb ((k, old) ∷ rest) ≡ (k, old) ∷ put id cb rest
  unfolding put
  put-there e = ground arith

  remove-here : k ≡ id → remove id ((k, old) ∷ rest) ≡ rest
  unfolding remove
  remove-here e = ground arith

  remove-there : k ≢ id → remove id ((k, old) ∷ rest) ≡ (k, old) ∷ remove id rest
  unfolding remove
  remove-there e = ground arith

pub find-cases :
    (id : ℕ) (live : List Block) (cs : Chunks)
    → IsTable live cs
    → ((find id cs ≡ none) × Absent id cs)
      ⊎ ((cb : ChunkBuffer) × (find id cs ≡ some cb) × Own live id cb)
find-cases id live [] t = inl (unfold find in refl, tt)
find-cases id live ((k, old) ∷ rest) t = elim (ℕ_discrete k id) [
  | yes e ↦ inr (old, find-here id old k old rest e, subst (λ n. Own live n old) e t.0)
  | no n ↦ elim (find-cases id live rest t.2) [
    | inl (e, a) ↦ inl (find-there id old k old rest n ∙ e, (n, a))
    | inr (cb, e, o) ↦ inr (cb, find-there id old k old rest n ∙ e, o)
  ]
]

pub put-Absent :
    (j id : ℕ) (cb : ChunkBuffer) (cs : Chunks) → id ≢ j → Absent j cs → Absent j (put id cb cs)
put-Absent j id cb [] n a = unfold put in (n, tt)
put-Absent j id cb ((k, old) ∷ rest) n a = elim (ℕ_discrete k id) [
  | yes e ↦ subst (Absent j) (sym (put-here id cb k old rest e)) a
  | no h ↦
      subst (Absent j) (sym (put-there id cb k old rest h)) (a.0, put-Absent j id cb rest n a.1)
]

-- The keys that `put` leaves are the old ones and the new one.
pub Absent-put :
    (j id : ℕ) (cb : ChunkBuffer) (cs : Chunks) → Absent j (put id cb cs) → Absent j cs × (id ≢ j)
Absent-put j id cb [] a = let h : Absent j ((id, cb) ∷ []) = unfold put in a in (tt, h.0)
Absent-put j id cb ((k, old) ∷ rest) a = elim (ℕ_discrete k id) [
  | yes e ↦
      let h : Absent j ((k, cb) ∷ rest) = subst (Absent j) (put-here id cb k old rest e) a in
      ((h.0, h.1), subst (λ n. n ≢ j) e h.0)
  | no n ↦
      let h : Absent j ((k, old) ∷ put id cb rest) =
        subst (Absent j) (put-there id cb k old rest n) a in
      let (rest_absent, other) = Absent-put j id cb rest h.1 in ((h.0, rest_absent), other)
]

pub remove-Absent : (j id : ℕ) (cs : Chunks) → Absent j cs → Absent j (remove id cs)
remove-Absent j id [] a = unfold remove in tt
remove-Absent j id ((k, old) ∷ rest) a = elim (ℕ_discrete k id) [
  | yes e ↦ subst (Absent j) (sym (remove-here id old k old rest e)) a.1
  | no n ↦
      subst (Absent j) (sym (remove-there id old k old rest n)) (a.0, remove-Absent j id rest a.1)
]

pub Absent-remove : (j id : ℕ) (cs : Chunks) → id ≢ j → Absent j (remove id cs) → Absent j cs
Absent-remove j id [] n a = tt
Absent-remove j id ((k, old) ∷ rest) n a = elim (ℕ_discrete k id) [
  | yes e ↦ (subst (λ x. x ≢ j) (sym e) n, subst (Absent j) (remove-here id old k old rest e) a)
  | no h ↦
      let b : Absent j ((k, old) ∷ remove id rest) =
        subst (Absent j) (remove-there id old k old rest h) a in
      (b.0, Absent-remove j id rest n b.1)
]

module _ (l m : List Block) (id : ℕ) (same : (k b : ℕ) → k ≢ id → held l k b ≡ held m k b) where
  pub put-IsTable :
      (cb : ChunkBuffer) (cs : Chunks) → Own m id cb → IsTable l cs → IsTable m (put id cb cs)
  put-IsTable cb [] o t = unfold put in (o, tt, tt)
  put-IsTable cb ((k, old) ∷ rest) o t = elim (ℕ_discrete k id) [
    | yes e ↦ subst (IsTable m) (sym (put-here id cb k old rest e)) (
      subst (λ n. Own m n cb) (sym e) o,
      t.1,
      IsTable-held l m rest id same (subst (λ n. Absent n rest) e t.1) t.2,
    )
    | no n ↦ subst (IsTable m) (sym (put-there id cb k old rest n)) (
      Own-held (λ b. same k b n) t.0,
      put-Absent k id cb rest (λ e. n (sym e)) t.1,
      put-IsTable cb rest o t.2,
    )
  ]

  pub remove-IsTable : (cs : Chunks) → IsTable l cs → IsTable m (remove id cs)
  remove-IsTable [] t = unfold remove in tt
  remove-IsTable ((k, old) ∷ rest) t = elim (ℕ_discrete k id) [
    | yes e ↦
        subst (IsTable m) (sym (remove-here id old k old rest e))
          (IsTable-held l m rest id same (subst (λ n. Absent n rest) e t.1) t.2)
    | no n ↦
        subst (IsTable m) (sym (remove-there id old k old rest n))
          (Own-held (λ b. same k b n) t.0, remove-Absent k id rest t.1, remove-IsTable rest t.2)
  ]

module _ (block : Block) (live : List Block) (cb : ChunkBuffer) (positive : 0 < block.size)
    (o : Own (block ∷ live) block.chunk_id cb) where
  abbrev freed : ChunkBuffer
  freed = buffer_free cb block.offset block.size

  freed_lem :
      IsCanonical 0 cb.total_size freed.free_list
      × ((b : ℕ)
          → covers freed.free_list b ≡ byte_of (block.offset, block.size) b + covers cb.free_list b)
  freed_lem =
      buffer_free-IsCanonical cb block.offset block.size o.canonical positive
        (ground (
          arith,
          held-same block live (block.offset + block.size - 1),
          o.inside (block.offset + block.size - 1),
        ))
        (λ b p q. ground (arith, held-same block live b, o.once b, o.inside b))

  -- The chunk of a block accounts for the other blocks once it is freed.
  pub buffer_free-Own : Own live block.chunk_id (buffer_free cb block.offset block.size)
  unfolding buffer_free
  buffer_free-Own = record {
    some_bytes = o.some_bytes;
    canonical = freed_lem.0;
    once = λ b h. omega (arith, held-same block live b, freed_lem.1 b, o.once b h);
    inside = λ b h. omega (arith, held-same block live b, o.inside b h);
  }

-- A chunk that is recognised as fully free holds no block.
pub fully_free-held :
    (live : List Block) (id : ℕ) (cb : ChunkBuffer)
    → Own live id cb
    → is_fully_free cb ≡ true
    → (b : ℕ) → held live id b ≡ 0
fully_free-held live id cb o e b = elim (dec_lt b cb.total_size) [
  | yes h ↦ omega (arith, o.once b h, (is_fully_free_lem cb o.canonical o.some_bytes).0 e b h)
  | no h ↦ o.inside b (omega arith)
]
