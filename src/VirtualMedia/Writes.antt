-- ===== src/VirtualMedia/Writes.antt =====
-- `write` of `VirtualMedia`, over the managers of the devices.
use ummwith_client.Prelude.{
  ℕ, zero, suc, ◌<◌, ◌≡◌, ◌≢◌, refl, List, [], ◌∷◌, arith, ◌==◌, if◌then◌else◌, Option, some, none,
  length, get_elem?, set, ok, err, Result, get_elem?-set_self, get_elem?-set_ne, length-set, lt→ltb,
  sym, subst, ap, ◌∙◌, ℕ_discrete, true, false, Bool, raise_if, runtime_error, inl, inr, ◌⊎◌, Error,
}
use ummwith_client.Prelude.Action.{continue}
use ummwith_client.Prelude.Int.{ℤ, pos}
use ummwith_client.Umm.{Bytes, UmmLib}
use ummwith_client.Strategy as Strategy
use ummwith_client.Segment.Manager as Segment
use ummwith_client.Segment.Manager.{Manager, append}
use ummwith_client.Segment.Count.{occ}
use ummwith_client.Segment.Invariant.{IsValid}
use ummwith_client.Segment.Methods.{Appended, append-Appended}
use ummwith_client.Segment.Buffering.{Cause}
use ummwith_client.VirtualMedia.Media.{
  VirtualMedia, State, on_found, ensure_open, on_mgr, put_back, media_write, read_buffered,
}

pub get_elem?-lt :
    (xs : List Manager) (i : ℕ) (m : Manager) → get_elem? xs i ≡ some m → i < length xs
get_elem?-lt [] i m e = cc
get_elem?-lt (x ∷ xs) zero m e = omega arith
get_elem?-lt (x ∷ xs) (suc i) m e = omega (arith, get_elem?-lt xs i m e)

pub some-injective : {m n : Manager} → some m ≡ some n → m ≡ n
some-injective e = cc

-- Each device's manager is well-formed, with the live offsets of that device.
abbrev pub AllValid : (ℕ → List ℕ) → VirtualMedia → Type 0
AllValid live v = (d : ℕ) (m : Manager) → get_elem? v.mgrs d ≡ some m → IsValid m (live d)

-- One more live offset on device `d`.
abbrev pub with_live : (ℕ → List ℕ) → ℕ → ℕ → ℕ → List ℕ
with_live live d off k = if k == d then off ∷ live k else live k

-- Why a write raises: the media is closed, the strategy refuses the key, or the device that it
-- names is none of the media or cannot take the unit.
abbrev pub Unwritten : UmmLib → ℤ × ℤ → Error → VirtualMedia → Type 0
Unwritten lib key e v =
    ((v.closed ≡ true) × (e ≡ runtime_error))
    ⊎ (Strategy.locate v.placement key ≡ err e)
    ⊎ ((d : ℕ) × (Strategy.locate v.placement key ≡ ok d)
        × ((get_elem? v.mgrs d ≡ none)
            ⊎ ((m : Manager) × (get_elem? v.mgrs d ≡ some m) × Cause lib e m)))

module _ (lib : UmmLib) (live : ℕ → List ℕ) where
  open lib use {Dev}

  -- After a write: all managers well-formed; if it returned an offset, then that was not live on the
  -- device of the key, is live now, and reads back as the unit; if it raised, then as `Unwritten`.
  abbrev pub Written : ℤ × ℤ → Bytes → Result ℕ × State lib → Type 0
  Written key unit (err e, (v, dev)) = AllValid live v × Unwritten lib key e v
  Written key unit (ok off, (v, dev)) =
      (d : ℕ) × (Strategy.locate v.placement key ≡ ok d)
      × AllValid (with_live live d off) v
      × (occ off (live d) ≡ 0)
      × (read_buffered lib (pos d) off (v, dev) ≡ (ok (some unit), (v, dev)))

  in_range :
      (v : VirtualMedia) (d : ℕ) (m : Manager) → get_elem? v.mgrs d ≡ some m → d < length v.mgrs
  in_range v d m e = get_elem?-lt v.mgrs d m e

  pub put-AllValid :
      (v : VirtualMedia) (d : ℕ) (m m' : Manager) (live' : ℕ → List ℕ)
      → AllValid live v
      → get_elem? v.mgrs d ≡ some m
      → IsValid m' (live' d)
      → ((k : ℕ) → k ≢ d → live' k ≡ live k)
      → AllValid live' (record v { mgrs = set v.mgrs d m' })
  put-AllValid v d m m' live' all e valid same k n f = elim (ℕ_discrete k d) [
    | yes i ↦
        subst (λ x. IsValid x (live' k))
          (some-injective (
            sym (get_elem?-set_self v.mgrs d m' (in_range v d m e))
            ∙ ap (get_elem? (set v.mgrs d m')) (sym i)
            ∙ f))
          (subst (λ x. IsValid m' (live' x)) (sym i) valid)
    | no i ↦
        subst (IsValid n) (sym (same k i))
          (all k n (sym (get_elem?-set_ne v.mgrs d k m' (λ h. i (sym h))) ∙ f))
  ]

  read_buffered-found :
      (v : VirtualMedia) (dev : Dev) (d off : ℕ) (m : Manager)
      → d < length v.mgrs
      → get_elem? v.mgrs d ≡ some m
      → read_buffered lib (pos d) off (v, dev)
        ≡ (ok (Segment.read_buffer m off v.merging.unit_size), (v, dev))
  unfolding read_buffered
  read_buffered-found v dev d off m h e = rw (lt→ltb d (length v.mgrs) h, e) refl

  module _ (key : ℤ × ℤ) (unit : Bytes) (v : VirtualMedia) (all : AllValid live v) where
    put_back-Written :
        (d : ℕ) (m : Manager)
        → Strategy.locate v.placement key ≡ ok d
        → get_elem? v.mgrs d ≡ some m
        → (r : Result ℕ × Segment.State lib) → Appended lib v.merging.unit_size (live d) unit r
        → Written key unit (put_back lib v d r)
    put_back-Written d m place e (err why, (m', dev)) (valid, cause) = (
      put-AllValid v d m m' live all e valid (λ k n. refl),
      inr (inr (d, place, inr (m', get_elem?-set_self v.mgrs d m' (in_range v d m e), cause))),
    )
    put_back-Written d m place e (ok off, (m', dev)) (valid, new, buffered, reads) = (
      d,
      place,
      put-AllValid v d m m' (with_live live d off) all e (subst (IsValid m') (sym added) valid)
          others,
      new,
      read_buffered-found v' dev d off m'
            (subst (λ n. d < n) (sym (length-set v.mgrs d m')) (in_range v d m e))
            (get_elem?-set_self v.mgrs d m' (in_range v d m e))
          ∙ ap (λ o. (ok o, (v', dev))) reads,
    )
      where
        v' : VirtualMedia
        v' = record v { mgrs = set v.mgrs d m' }

        added : with_live live d off d ≡ off ∷ live d
        added = ground arith

        others : (k : ℕ) → k ≢ d → with_live live d off k ≡ live k
        others k n = ground arith

    on_found-Written :
        (dev : Dev) (d : ℕ) (o : Option Manager)
        → Strategy.locate v.placement key ≡ ok d
        → get_elem? v.mgrs d ≡ o
        → length unit ≡ v.merging.unit_size
        → ((m : Manager) → get_elem? v.mgrs d ≡ some m → m.unit_size ≡ v.merging.unit_size)
        → Written key unit (on_found lib v dev d (append lib unit) o)
    on_found-Written dev d none place e sized same = (all, inr (inr (d, place, inl e)))
    on_found-Written dev d (some m) place e sized same =
        put_back-Written d m place e (append lib unit (m, dev))
          (append-Appended lib v.merging.unit_size (live d) unit m dev (all d m e) (same m e)
            sized).0

    placed-Written :
        (dev : Dev) (r : Result ℕ)
        → Strategy.locate v.placement key ≡ r
        → length unit ≡ v.merging.unit_size
        → ((d : ℕ) (m : Manager) → get_elem? v.mgrs d ≡ some m → m.unit_size ≡ v.merging.unit_size)
        → Written key unit (continue r (λ d. on_mgr lib d (append lib unit)) (v, dev))
    unfolding on_mgr
    placed-Written dev (err e) place sized same = (all, inr (inl place))
    placed-Written dev (ok d) place sized same =
        on_found-Written dev d (get_elem? v.mgrs d) place refl sized (same d)

    -- A `write` of a unit of the right size, on managers of that unit size, keeps every manager
    -- well-formed; an offset that it returns was not live on the key's device, is live now, and
    -- reads back as the unit. It raises only if the media is closed, the strategy refuses the key or
    -- names a device that is not there, no segment is left on the device, or the library raised.
    pub media_write-Written :
        (dev : Dev)
        → length unit ≡ v.merging.unit_size
        → ((d : ℕ) (m : Manager) → get_elem? v.mgrs d ≡ some m → m.unit_size ≡ v.merging.unit_size)
        → Written key unit (media_write lib key unit (v, dev))
    unfolding media_write ensure_open
    media_write-Written dev sized same = by_mark v.closed refl
      where
        by_mark :
            (closed : Bool)
            → v.closed ≡ closed
            → Written key unit (
                continue
                  (raise_if closed runtime_error)
                  (λ (_ : Unit {0}) (s : State lib).
                    continue
                      (Strategy.locate s.0.placement key)
                      (λ d. on_mgr lib d (append lib unit))
                      s)
                  (v, dev))
        by_mark true is_closed = (all, inl (is_closed, refl))
        by_mark false is_open = placed-Written dev (Strategy.locate v.placement key) refl sized same
