-- ===== src/Fake/Refinement.antt =====
-- The library in memory of bmpclient/testing.py, under the methods of `UMMLib`, against a memory of
-- cells.
use ummwith_client.Prelude.{
  ℕ, ◌+◌, ◌≤◌, ◌≡◌, ◌≢◌, ap, sym, subst, ◌∙◌, Option, none, some, List, length, replicate, arith,
  length-replicate, ℕ_discrete,
}
use ummwith_client.Prelude.Splice.{splice, length-splice}
use ummwith_client.Prelude.Dict.{dict_get, dict_set, dict_del, dict_get-dict_set, dict_get-dict_del}
use ummwith_client.Umm.{Bytes}
use ummwith_client.Fake.{Fake}
use ummwith_client.Fake.Memory.{Memory, with_chunk, without_chunk, with_bytes}
use ummwith_client.Fake.Cells.{Holds, Holds-splice, Holds-replicate}

abbrev pub size_of : Option Bytes → Option ℕ
size_of none = none
size_of (some buf) = some (length buf)

-- The chunks of the fake library are those of the memory.
pub record Refines (f : Fake) (m : Memory) : Type 0 where
  pub next : m.next ≡ f.next_chunk_id
  pub devices : m.devices ≡ f.num_ssd_devices
  pub sizes : (c : ℕ) → m.size c ≡ size_of (dict_get c f.chunks)
  pub held : (c : ℕ) (buf : Bytes) → dict_get c f.chunks ≡ some buf → Holds buf (m.cell c)

some_injective : {A : Type 0} (x y : A) → some x ≡ some y → x ≡ y
some_injective x y e = cc

module _ (f : Fake) (m : Memory) (b : Refines f m) where
  -- One chunk gets a new buffer, and the cells of the others stay.
  held-dict_set :
      (k : ℕ) (new : Bytes) (g : ℕ → ℕ → ℕ)
      → Holds new (g k)
      → ((c i : ℕ) → k ≢ c → g c i ≡ m.cell c i)
      → (c : ℕ) (buf : Bytes) → dict_get c (dict_set k new f.chunks) ≡ some buf
      → Holds buf (g c)
  held-dict_set k new g own others c buf e = elim (ℕ_discrete k c) [
    | yes p ↦
        let same : new ≡ buf =
          some_injective new buf (ground (arith, p, e, dict_get-dict_set k c new f.chunks)) in
        subst (λ (x : Bytes). Holds x (g c)) same (subst (λ (x : ℕ). Holds new (g x)) p own)
    | no p ↦
        let before : dict_get c f.chunks ≡ some buf =
          ground (arith, p, e, dict_get-dict_set k c new f.chunks) in
        λ i l. b.held c buf before i l ∙ ap some (sym (others c i p))
  ]

  pub new_chunk-Refines :
      (n : ℕ) (f' : Fake)
      → f'.chunks ≡ dict_set f.next_chunk_id (replicate n 0) f.chunks
      → f'.next_chunk_id ≡ f.next_chunk_id + 1
      → f'.num_ssd_devices ≡ f.num_ssd_devices
      → Refines f' (with_chunk n m)
  new_chunk-Refines n f' chunks next devices = record {
    next = ground (arith, b.next, next);
    devices = b.devices ∙ sym devices;
    sizes = λ c. ground (
      arith,
      b.next,
      b.sizes c,
      chunks,
      dict_get-dict_set f.next_chunk_id c (replicate n 0) f.chunks,
      length-replicate {A = ℕ} n 0,
    );
    held = λ c buf e.
        held-dict_set f.next_chunk_id (replicate n 0) (with_chunk n m).cell
          (λ i l. Holds-replicate n i l ∙ ap some (ground (arith, b.next)))
          (λ c i p. ground (arith, b.next, p)) c buf
          (subst (λ (d : List (ℕ × Bytes)). dict_get c d ≡ some buf) chunks e);
  }

  pub free-Refines :
      (k : ℕ) (f' : Fake)
      → f'.chunks ≡ dict_del k f.chunks
      → f'.next_chunk_id ≡ f.next_chunk_id
      → f'.num_ssd_devices ≡ f.num_ssd_devices
      → Refines f' (without_chunk k m)
  free-Refines k f' chunks next devices = record {
    next = b.next ∙ sym next;
    devices = b.devices ∙ sym devices;
    sizes = λ c. ground (arith, b.sizes c, chunks, dict_get-dict_del k c f.chunks);
    held = λ c buf e. b.held c buf (
        ground (
          arith,
          subst (λ (d : List (ℕ × Bytes)). dict_get c d ≡ some buf) chunks e,
          dict_get-dict_del k c f.chunks,
        ));
  }

  pub write-Refines :
      (k : ℕ) (buf : Bytes) (i : ℕ) (payload : Bytes) (f' : Fake)
      → dict_get k f.chunks ≡ some buf
      → i + length payload ≤ length buf
      → f'.chunks ≡ dict_set k (splice buf i payload) f.chunks
      → f'.next_chunk_id ≡ f.next_chunk_id
      → f'.num_ssd_devices ≡ f.num_ssd_devices
      → Refines f' (with_bytes k i payload m)
  write-Refines k buf i payload f' found room chunks next devices = record {
    next = b.next ∙ sym next;
    devices = b.devices ∙ sym devices;
    sizes = λ c. elim (ℕ_discrete k c) [
      | yes p ↦ ground (
        arith,
        b.sizes c,
        chunks,
        dict_get-dict_set k c (splice buf i payload) f.chunks,
        ap (λ (x : ℕ). dict_get x f.chunks) p,
        found,
        length-splice buf i payload room,
      )
      | no p ↦
          ground (arith, b.sizes c, chunks, dict_get-dict_set k c (splice buf i payload) f.chunks)
    ];
    held = λ c old e.
        held-dict_set k (splice buf i payload) (with_bytes k i payload m).cell
          (λ j l.
            Holds-splice buf i payload (m.cell k) room (b.held k buf found) j l
            ∙ ap some (ground (arith)))
          (λ c j p. ground (arith, p)) c old
          (subst (λ (d : List (ℕ × Bytes)). dict_get c d ≡ some old) chunks e);
  }
