-- ===== src/Fake/Memory.antt =====
-- What libumm promises, as a memory of cells: for each chunk its size, and a byte for each cell.
use ummwith_client.Prelude.{
  ℕ, zero, suc, ◌+◌, ◌-◌, ltb, leb, ◌==◌, ◌&&◌, ◌||◌, ◌*◌, Bool, true, false, Option, none, some,
  List, [], ◌∷◌, if◌then◌else◌, length, Result, ok, err, runtime_error,
}
use ummwith_client.Umm.{Bytes, ChunkDescriptor, UmmLib}

pub record Memory : Type 0 where
  pub size : ℕ → Option ℕ
  pub cell : ℕ → ℕ → ℕ
  pub next : ℕ
  pub devices : ℕ

-- The cells of `n` addresses, from `i` on.
abbrev pub cells : (ℕ → ℕ) → ℕ → ℕ → Bytes
cells f i zero = []
cells f i (suc n) = f i ∷ cells f (suc i) n

-- The byte at a place of a text that has it.
abbrev pub byte_at : Bytes → ℕ → ℕ
byte_at [] i = 0
byte_at (b ∷ bytes) zero = b
byte_at (b ∷ bytes) (suc i) = byte_at bytes i

-- The calls of a client.
pub data Request : Type 0 where
  alloc : ℕ → Request
  alloc_on_device : ℕ → ℕ → Request
  free : ChunkDescriptor → Request
  read read_into : ChunkDescriptor → ℕ → ℕ → Request
  write write_from : ChunkDescriptor → ℕ → Bytes → Request

pub data Reply : Type 0 where
  chunk : Result ChunkDescriptor → Reply
  bytes : Result Bytes → Reply
  count : Result ℕ → Reply
  nothing : Result (Unit {0}) → Reply

abbrev pub with_chunk : ℕ → Memory → Memory
with_chunk n m = record m {
  size = λ c. if m.next == c then some n else m.size c;
  cell = λ c i. if m.next == c then 0 else m.cell c i;
  next = m.next + 1;
}

abbrev pub new_chunk : ℕ → Memory → Reply × Memory
new_chunk n m = (
  chunk (ok (record { chunk_id = m.next; base_gpa = 1048576 + m.next * 65536; user_size = n })),
  with_chunk n m,
)

-- Whether the range lies in the chunk.
abbrev pub fits : Option ℕ → ℕ → ℕ → Bool
fits none i n = false
fits (some len) i n = leb (i + n) len

abbrev pub is_there : Option ℕ → Bool
is_there none = false
is_there (some n) = true

abbrev pub without_chunk : ℕ → Memory → Memory
without_chunk k m = record m { size = λ c. if k == c then none else m.size c }

abbrev pub with_bytes : ℕ → ℕ → Bytes → Memory → Memory
with_bytes k i payload m = record m {
  cell = λ c j.
      if (k == c) && leb i j && ltb j (i + length payload)
      then byte_at payload (j - i)
      else m.cell c j;
}

-- What each call does to the memory, and its reply.
unfoldable pub perform : Request → Memory → Reply × Memory
perform (alloc n) m = new_chunk n m
perform (alloc_on_device n device) m =
    if ltb device m.devices then new_chunk n m else (chunk (err runtime_error), m)
perform (free d) m =
    if is_there (m.size d.chunk_id)
    then (nothing (ok tt), without_chunk d.chunk_id m)
    else (nothing (err runtime_error), m)
perform (read d i n) m = (
  bytes (
      if fits (m.size d.chunk_id) i n
      then ok (cells (m.cell d.chunk_id) i n)
      else err runtime_error),
  m,
)
perform (read_into d i n) m = (
  bytes (
      if (n == 0) || fits (m.size d.chunk_id) i n
      then ok (cells (m.cell d.chunk_id) i n)
      else err runtime_error),
  m,
)
perform (write d i []) m = (nothing (ok tt), m)
perform (write d i (x ∷ xs)) m =
    if fits (m.size d.chunk_id) i (length (x ∷ xs))
    then (nothing (ok tt), with_bytes d.chunk_id i (x ∷ xs) m)
    else (nothing (err runtime_error), m)
perform (write_from d i []) m = (count (ok 0), m)
perform (write_from d i (x ∷ xs)) m =
    if fits (m.size d.chunk_id) i (length (x ∷ xs))
    then (count (ok (length (x ∷ xs))), with_bytes d.chunk_id i (x ∷ xs) m)
    else (count (err runtime_error), m)

unfoldable pub perform_all : List Request → Memory → List Reply × Memory
unfolding perform
perform_all [] m = ([], m)
perform_all (q ∷ qs) m =
    let (reply, m') = perform q m in
    let (replies, m'') = perform_all qs m' in (reply ∷ replies, m'')

module _ (lib : UmmLib) where
  open lib use {Dev}

  -- The same calls of a library.
  abbrev pub serve : Request → Dev → Reply × Dev
  serve (alloc n) dev = let (r, dev') = lib.alloc n dev in (chunk r, dev')
  serve (alloc_on_device n device) dev =
      let (r, dev') = lib.alloc_on_device n device dev in (chunk r, dev')
  serve (free d) dev = let (r, dev') = lib.free d dev in (nothing r, dev')
  serve (read d i n) dev = let (r, dev') = lib.read d i n dev in (bytes r, dev')
  serve (read_into d i n) dev = let (r, dev') = lib.read_into d i n dev in (bytes r, dev')
  serve (write d i payload) dev = let (r, dev') = lib.write d i payload dev in (nothing r, dev')
  serve (write_from d i payload) dev =
      let (r, dev') = lib.write_from d i payload dev in (count r, dev')

  unfoldable pub serve_all : List Request → Dev → List Reply × Dev
  serve_all [] dev = ([], dev)
  serve_all (q ∷ qs) dev =
      let (reply, dev') = serve q dev in
      let (replies, dev'') = serve_all qs dev' in (reply ∷ replies, dev'')
