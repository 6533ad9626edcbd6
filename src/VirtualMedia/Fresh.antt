-- ===== src/VirtualMedia/Fresh.antt =====
-- The managers that the constructor of bmpclient/virtual_media.py makes, and the extents that they own.
use ummwith_client.Prelude.{
  ℕ, zero, suc, ◌+◌, ◌≡◌, refl, sym, ap, subst, ◌==◌, some, List, [], ◌∷◌, ◌++◌, if◌then◌else◌,
  length, get_elem?, arith, ok,
}
use ummwith_client.Umm.{ChunkDescriptor, UmmLib}
use ummwith_client.Strategy as Strategy
use ummwith_client.Strategy.{PositionHash, Options}
use ummwith_client.Segment.Manager as Segment
use ummwith_client.Segment.Manager.{Manager, count_up}
use ummwith_client.Segment.Invariant.{IsValid}
use ummwith_client.Segment.Steps.{init_ok}
use ummwith_client.VirtualMedia.Open.{
  Setup, Choice, built_with, given, resolve_strategy, capacity_of, super_page,
}

abbrev pub one_at : ℕ → ℕ → ℕ
one_at i c = if i == c then 1 else 0

-- How often a chunk is an extent of the managers.
abbrev pub owned : List Manager → ℕ → ℕ
owned [] c = 0
owned (m ∷ ms) c = one_at m.desc.chunk_id c + owned ms c

pub owned-append :
    (ms : List Manager) (m : Manager) (c : ℕ)
    → owned (ms ++ m ∷ []) c ≡ one_at m.desc.chunk_id c + owned ms c
owned-append [] m c = refl
owned-append (x ∷ ms) m c = omega (arith, owned-append ms m c)

-- Well-formed managers of empty extents.
abbrev pub AllFresh : ℕ → List Manager → Type 0
AllFresh unit [] = Unit
AllFresh unit (m ∷ ms) = IsValid m [] × (m.unit_size ≡ unit) × AllFresh unit ms

pub append-AllFresh :
    (unit : ℕ) (ms : List Manager) (m : Manager)
    → AllFresh unit ms
    → IsValid m []
    → m.unit_size ≡ unit
    → AllFresh unit (ms ++ m ∷ [])
append-AllFresh unit [] m f v e = (v, e, tt)
append-AllFresh unit (x ∷ ms) m (w, g, f) v e = (w, g, append-AllFresh unit ms m f v e)

pub AllFresh-IsValid :
    (unit : ℕ) (ms : List Manager) (d : ℕ) (m : Manager)
    → AllFresh unit ms
    → get_elem? ms d ≡ some m
    → IsValid m []
AllFresh-IsValid unit [] d m f e = absurd (cc e)
AllFresh-IsValid unit (x ∷ ms) zero m (v, g, f) e = subst (λ (y : Manager). IsValid y []) (cc e) v
AllFresh-IsValid unit (x ∷ ms) (suc d) m (v, g, f) e = AllFresh-IsValid unit ms d m f e

pub length-count_up : (i n : ℕ) → length (count_up i n) ≡ n
length-count_up i zero = refl
length-count_up i (suc n) = ap suc (length-count_up (suc i) n)

pub init_desc :
    (desc : ChunkDescriptor) (sp unit : ℕ) (m : Manager)
    → Segment.init desc sp unit ≡ ok m
    → m.desc ≡ desc
unfolding Segment.built
init_desc desc sp unit m h =
    let (checked, whole, same) = init_ok desc sp unit h in sym (ap (λ (x : Manager). x.desc) same)

num_devices-init :
    (n : ℕ) (options : Options) (p : PositionHash)
    → Strategy.init n options ≡ ok p
    → p.num_devices ≡ n
unfolding Strategy.init
num_devices-init n options p h = ground arith

pub num_devices-resolve_strategy :
    (choice : Choice) (n : ℕ) (p : PositionHash)
    → resolve_strategy choice n ≡ ok p
    → p.num_devices ≡ n
unfolding resolve_strategy
num_devices-resolve_strategy (built_with options) n p h = num_devices-init n options p h
num_devices-resolve_strategy (given s) n p h = ground arith

-- The manager of device `d`: its extent is a chunk that the library gave for that device, of the
-- capacity of the device, and its segments are as large as the arguments say for the device.
abbrev pub From : (lib : UmmLib) → Setup → ℕ → Manager → Type 0
From lib s d m =
    (size : ℕ) × (before : lib.Dev) × (after : lib.Dev) × (capacity_of s.capacity d ≡ ok size)
    × (lib.alloc_on_device size d before ≡ (ok m.desc, after))
    × (m.sp_bytes ≡ super_page s d)

-- The managers of the devices from `i` on.
abbrev pub AllFrom : (lib : UmmLib) → Setup → ℕ → List Manager → Type 0
AllFrom lib s i [] = Unit
AllFrom lib s i (m ∷ ms) = From lib s i m × AllFrom lib s (suc i) ms

pub append-AllFrom :
    (lib : UmmLib) (s : Setup) (i : ℕ) (ms : List Manager) (m : Manager)
    → AllFrom lib s i ms
    → From lib s (i + length ms) m
    → AllFrom lib s i (ms ++ m ∷ [])
append-AllFrom lib s i [] m f h = (subst (λ (d : ℕ). From lib s d m) (omega arith) h, tt)
append-AllFrom lib s i (x ∷ ms) m (g, f) h =
    (g, append-AllFrom lib s (suc i) ms m f (subst (λ (d : ℕ). From lib s d m) (omega arith) h))

pub AllFrom-From :
    (lib : UmmLib) (s : Setup) (i d : ℕ) (ms : List Manager) (m : Manager)
    → AllFrom lib s i ms
    → get_elem? ms d ≡ some m
    → From lib s (i + d) m
AllFrom-From lib s i d [] m f e = absurd (cc e)
AllFrom-From lib s i zero (x ∷ ms) m (g, f) e =
    let same : x ≡ m = cc e in
    subst (λ (d : ℕ). From lib s d m) (omega arith) (subst (From lib s i) same g)
AllFrom-From lib s i (suc d) (x ∷ ms) m (g, f) e =
    subst (λ (d : ℕ). From lib s d m) (omega arith) (AllFrom-From lib s (suc i) d ms m f e)
