-- ===== src/Fake/Calls.antt =====
-- Each call of the library in memory, and any sequence of calls, against the memory of cells.
use ummwith_client.Prelude.{
  ℕ, zero, suc, ◌+◌, ◌≡◌, refl, ap, ◌∙◌, inl, inr, ltb, leb, ◌==◌, true, false, none, some, List,
  [], ◌∷◌, length, arith, Option-cases, Bool-cases, ok,
}
use ummwith_client.Prelude.Dict.{dict_get}
use ummwith_client.Umm.{Bytes, ChunkDescriptor}
use ummwith_client.Umm.Clib.{checked, clib_read_into, clib_write, clib_write_from}
use ummwith_client.Fake.{
  Fake, fake_lib, fake_alloc, fake_alloc_on_device, fake_free, fake_read, fake_write, new_fake,
  io_done,
}
use ummwith_client.Fake.Memory.{
  Memory, Request, alloc, alloc_on_device, free, read, read_into, write, write_from, Reply, bytes,
  perform, perform_all, serve, serve_all,
}
use ummwith_client.Fake.Cells.{slice-cells}
use ummwith_client.Fake.Refinement.{
  Refines, size_of, new_chunk-Refines, free-Refines, write-Refines,
}

-- The same reply, and states that agree again.
abbrev pub Agrees : Reply × Fake → Reply × Memory → Type 0
Agrees p q = (p.0 ≡ q.0) × Refines p.1 q.1

module _ (f : Fake) (m : Memory) (b : Refines f m) where
  alloc-Agrees : (n : ℕ) → Agrees (serve fake_lib (alloc n) f) (perform (alloc n) m)
  unfolding perform fake_alloc checked
  alloc-Agrees n = (ground (arith, b.next), new_chunk-Refines f m b n _ refl refl refl)

  alloc_on_device-Agrees :
      (n device : ℕ)
      → Agrees (serve fake_lib (alloc_on_device n device) f) (perform (alloc_on_device n device) m)
  unfolding perform fake_alloc_on_device fake_alloc checked
  alloc_on_device-Agrees n device = elim (Bool-cases (ltb device f.num_ssd_devices)) [
    | inl e ↦
        let there : ltb device m.devices ≡ true = ground (arith, e, b.devices) in
        let known : leb f.num_ssd_devices device ≡ false = ground (arith, e) in
        rw (there, known) (ground (arith, b.next), new_chunk-Refines f m b n _ refl refl refl)
    | inr e ↦
        let there : ltb device m.devices ≡ false = ground (arith, e, b.devices) in
        let known : leb f.num_ssd_devices device ≡ true = ground (arith, e) in
        rw (there, known) (refl, b)
  ]

  free-Agrees : (d : ChunkDescriptor) → Agrees (serve fake_lib (free d) f) (perform (free d) m)
  unfolding perform fake_free checked
  free-Agrees d = elim (Option-cases (dict_get d.chunk_id f.chunks)) [
    | inl e ↦
        let gone : m.size d.chunk_id ≡ none = b.sizes d.chunk_id ∙ ap size_of e in
        rw (e, gone) (refl, b)
    | inr (buf, e) ↦
        let there : m.size d.chunk_id ≡ some (length buf) = b.sizes d.chunk_id ∙ ap size_of e in
        rw (e, there) (refl, free-Refines f m b d.chunk_id _ refl refl refl)
  ]

  -- `umm_read` with the code checked.
  read-Agrees :
      (d : ChunkDescriptor) (i n : ℕ)
      → Agrees (serve fake_lib (read d i n) f) (perform (read d i n) m)
  unfolding perform fake_read io_done checked
  read-Agrees d i n = elim (Option-cases (dict_get d.chunk_id f.chunks)) [
    | inl e ↦
        let gone : m.size d.chunk_id ≡ none = b.sizes d.chunk_id ∙ ap size_of e in
        rw (e, gone) (refl, b)
    | inr (buf, e) ↦
        let there : m.size d.chunk_id ≡ some (length buf) = b.sizes d.chunk_id ∙ ap size_of e in
        elim (Bool-cases (ltb (length buf) (i + n))) [
          | inl h ↦
              let out : leb (i + n) (length buf) ≡ false = ground (arith, h) in
              rw (e, there, h, out) (refl, b)
          | inr h ↦
              let within : leb (i + n) (length buf) ≡ true = ground (arith, h) in
              rw (e, there, h, within)
                (
                  ap (λ (l : Bytes). bytes (ok l))
                      (slice-cells buf (m.cell d.chunk_id) i n (b.held d.chunk_id buf e)
                        (ground (arith, h))),
                  record { next = b.next; devices = b.devices; sizes = b.sizes; held = b.held },
                )
        ]
  ]

  -- `umm_write` of some bytes: the code and the state.
  written-Agrees :
      (d : ChunkDescriptor) (i x : ℕ) (xs : Bytes)
      → Agrees (serve fake_lib (write_from d i (x ∷ xs)) f) (perform (write_from d i (x ∷ xs)) m)
        × Agrees (serve fake_lib (write d i (x ∷ xs)) f) (perform (write d i (x ∷ xs)) m)
  unfolding perform fake_write io_done checked clib_write clib_write_from
  written-Agrees d i x xs = elim (Option-cases (dict_get d.chunk_id f.chunks)) [
    | inl e ↦
        let gone : m.size d.chunk_id ≡ none = b.sizes d.chunk_id ∙ ap size_of e in
        rw (e, gone) ((refl, b), (refl, b))
    | inr (buf, e) ↦
        let there : m.size d.chunk_id ≡ some (length buf) = b.sizes d.chunk_id ∙ ap size_of e in
        elim (Bool-cases (ltb (length buf) (i + suc (length xs)))) [
          | inl h ↦
              let out : leb (i + suc (length xs)) (length buf) ≡ false = ground (arith, h) in
              rw (e, there, h, out) ((refl, b), (refl, b))
          | inr h ↦
              let within : leb (i + suc (length xs)) (length buf) ≡ true = ground (arith, h) in
              let kept = write-Refines f m b d.chunk_id buf i (x ∷ xs) in
              rw (e, there, h, within)
                (
                  (refl, kept _ e (ground (arith, h)) refl refl refl),
                  (refl, kept _ e (ground (arith, h)) refl refl refl),
                )
        ]
  ]

  read_into-Agrees :
      (d : ChunkDescriptor) (i n : ℕ)
      → Agrees (serve fake_lib (read_into d i n) f) (perform (read_into d i n) m)
  unfolding perform clib_read_into
  read_into-Agrees d i zero = (refl, b)
  read_into-Agrees d i (suc n) =
      let some_bytes : (suc n == 0) ≡ false = ground arith in
      rw (some_bytes) (read-Agrees d i (suc n))

  serve-Agrees : (q : Request) → Agrees (serve fake_lib q f) (perform q m)
  unfolding perform clib_write clib_write_from
  serve-Agrees (alloc n) = alloc-Agrees n
  serve-Agrees (alloc_on_device n device) = alloc_on_device-Agrees n device
  serve-Agrees (free d) = free-Agrees d
  serve-Agrees (read d i n) = read-Agrees d i n
  serve-Agrees (read_into d i n) = read_into-Agrees d i n
  serve-Agrees (write d i []) = (refl, b)
  serve-Agrees (write d i (x ∷ xs)) = (written-Agrees d i x xs).1
  serve-Agrees (write_from d i []) = (refl, b)
  serve-Agrees (write_from d i (x ∷ xs)) = (written-Agrees d i x xs).0

serve_all-Agrees :
    (qs : List Request) (f : Fake) (m : Memory)
    → Refines f m
    → ((serve_all fake_lib qs f).0 ≡ (perform_all qs m).0)
      × Refines (serve_all fake_lib qs f).1 (perform_all qs m).1
unfolding serve_all perform_all
serve_all-Agrees [] f m b = (refl, b)
serve_all-Agrees (q ∷ qs) f m b =
    let (same, after) = serve-Agrees f m b q in
    let (rest, last) = serve_all-Agrees qs (serve fake_lib q f).1 (perform q m).1 after in
    (λ i. same i ∷ rest i, last)

none≢some : (buf : Bytes) → ¬ (none ≡ some buf)
none≢some buf e = cc

-- The memory without a chunk.
abbrev pub empty : ℕ → Memory
empty devices = record { size = λ c. none; cell = λ c i. 0; next = 1; devices = devices }

-- Whatever a client calls, in whatever order, a new `FakeUMMLib` answers like a memory of cells, errors
-- included.
pub new_fake_lem :
    (devices : ℕ) (qs : List Request)
    → (serve_all fake_lib qs (new_fake devices)).0 ≡ (perform_all qs (empty devices)).0
unfolding new_fake dict_get
new_fake_lem devices qs =
    (serve_all-Agrees qs (new_fake devices) (empty devices) (record {
      next = refl;
      devices = refl;
      sizes = λ c. refl;
      held = λ c buf e. absurd (none≢some buf e);
    })).0
