-- ===== src/VirtualMedia/Staging.antt =====
-- The staging buffers of `read_batch` of bmpclient/virtual_media.py: one read for a whole run.
use ummwith_client.Prelude.{ℕ, ◌+◌, ◌-◌, ◌*◌, ◌≤◌, ◌≡◌, refl, List, [], ◌∷◌, arith, length}
use ummwith_client.Prelude.Splice.{slice, slice-slice}
use ummwith_client.Umm.{Bytes}
use ummwith_client.VirtualMedia.Runs.{Item, IsRun}

-- What is copied out of the staging buffer of a run from `start` on: for each of its units the
-- position in the batch and the bytes.
unfoldable pub pieces : ℕ → Bytes → ℕ → List Item → List (ℕ × Bytes)
pieces unit staging start [] = []
pieces unit staging start ((pos, off) ∷ run) =
    (pos, slice staging (off - start) unit) ∷ pieces unit staging start run

-- Each unit read for itself.
unfoldable pub read_each : ℕ → Bytes → List Item → List (ℕ × Bytes)
read_each unit stored [] = []
read_each unit stored ((pos, off) ∷ run) = (pos, slice stored off unit) ∷ read_each unit stored run

pieces-read_each_from :
    (unit : ℕ) (stored : Bytes) (start n at : ℕ) (run : List Item)
    → IsRun unit at run
    → start ≤ at
    → at + length run * unit ≤ start + n
    → pieces unit (slice stored start n) start run ≡ read_each unit stored run
unfolding pieces read_each
pieces-read_each_from unit stored start n at [] r p q = refl
pieces-read_each_from unit stored start n at ((pos, off) ∷ run) r p q =
    rw
      (
        slice-slice stored start n (off - start) unit (omega (arith, r.0)),
        pieces-read_each_from unit stored start n (at + unit) run r.1 (omega arith) (omega arith),
        back,
      )
      refl
  where
    back : start + (off - start) ≡ off
    back = omega (arith, r.0)

-- One read of a whole run gives each unit of the run what a read of that unit alone gives.
pub pieces-read_each :
    (unit start : ℕ) (stored : Bytes) (run : List Item)
    → IsRun unit start run
    → pieces unit (slice stored start (length run * unit)) start run ≡ read_each unit stored run
pieces-read_each unit start stored run r =
    pieces-read_each_from unit stored start (length run * unit) start run r (omega arith)
      (omega arith)
