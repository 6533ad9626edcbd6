-- ===== src/Allocator/Held.antt =====
-- A table of chunks against the list of the blocks that were handed out and not yet freed.
use ummwith_client.Prelude.{
  ℕ, ◌+◌, ◌≤◌, ◌<◌, ◌≡◌, ◌≢◌, refl, List, [], ◌∷◌, arith, ◌==◌, if◌then◌else◌, none, All,
}
use ummwith_client.Allocator.ChunkBuffer.{ChunkBuffer}
use ummwith_client.Allocator.Canonical.{byte_of, covers, IsCanonical}
use ummwith_client.Allocator.Table.{Block, Chunks, find}

-- How many of the blocks hold byte `b` of chunk `id`.
unfoldable pub held : List Block → ℕ → ℕ → ℕ
held [] id b = 0
held (x ∷ live) id b =
    (if x.chunk_id == id then byte_of (x.offset, x.size) b else 0) + held live id b

-- Each byte of the chunk is either free or in exactly one block, and no block reaches out of it.
pub record Own (live : List Block) (id : ℕ) (cb : ChunkBuffer) : Type 0 where
  pub some_bytes : 0 < cb.total_size
  pub canonical : IsCanonical 0 cb.total_size cb.free_list
  pub once : (b : ℕ) → b < cb.total_size → covers cb.free_list b + held live id b ≡ 1
  pub inside : (b : ℕ) → cb.total_size ≤ b → held live id b ≡ 0

abbrev pub Absent : ℕ → Chunks → Type 0
Absent id cs = All (λ (e : ℕ × ChunkBuffer). e.0 ≢ id) cs

-- A table with distinct keys, whose chunks account for all of their bytes.
abbrev pub IsTable : List Block → Chunks → Type 0
IsTable live [] = Unit
IsTable live ((id, cb) ∷ rest) = Own live id cb × Absent id rest × IsTable live rest

pub held-other :
    (x : Block) (live : List Block) (id b : ℕ)
    → x.chunk_id ≢ id
    → held (x ∷ live) id b ≡ held live id b
unfolding held
held-other x live id b h = ground arith

pub held-same :
    (x : Block) (live : List Block) (b : ℕ)
    → held (x ∷ live) x.chunk_id b ≡ byte_of (x.offset, x.size) b + held live x.chunk_id b
unfolding held
held-same x live b = ground arith

pub Own-held :
    {l m : List Block} {id : ℕ} {cb : ChunkBuffer}
    → ((b : ℕ) → held l id b ≡ held m id b)
    → Own l id cb
    → Own m id cb
Own-held same o = record {
  some_bytes = o.some_bytes;
  canonical = o.canonical;
  once = λ b h. omega (arith, same b, o.once b h);
  inside = λ b h. omega (arith, same b, o.inside b h);
}

-- A table does not see the blocks of chunks that it does not hold.
pub IsTable-held :
    (l m : List Block) (cs : Chunks) (id : ℕ)
    → ((k b : ℕ) → k ≢ id → held l k b ≡ held m k b)
    → Absent id cs
    → IsTable l cs
    → IsTable m cs
IsTable-held l m [] id same a t = tt
IsTable-held l m ((k, cb) ∷ rest) id same a t =
    (Own-held (λ b. same k b a.0) t.0, t.1, IsTable-held l m rest id same a.1 t.2)

pub find-Absent : (id : ℕ) (cs : Chunks) → Absent id cs → find id cs ≡ none
unfolding find
find-Absent id [] a = refl
find-Absent id ((k, cb) ∷ rest) a = ground (arith, find-Absent id rest a.1)
