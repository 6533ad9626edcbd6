-- ===== src/ConcurrentIo/Handle.antt =====
-- `IOAddress`, `IORequest` and `IOHandle` of bmpclient/concurrent_io.py. The condition of a handle
-- makes each of its methods one step. A callback is the number under which it was registered, and
-- `fired` lists the calls of callbacks; what a callback does is the caller's.
use ummwith_client.Prelude.{
  ℕ, ◌-◌, Bool, true, false, Option, none, some, List, [], ◌∷◌, ◌++◌, ltb, ◌==◌, if◌then◌else◌,
  length, set, replicate, Result, ok, err, Error, timeout_error,
}
use ummwith_client.Prelude.Int.{ℤ, pos, ◌+ℤ◌, ◌-ℤ◌}
use ummwith_client.Umm.{Bytes, ChunkDescriptor}
use ummwith_client.Allocator.Table.{Block}

pub record IoAddress : Type 0 where
  pub chunk_id : ℕ
  pub base_gpa : ℕ
  pub offset : ℤ
  pub nbytes : ℤ
  pub user_size : ℕ

-- `IOAddress.from_descriptor`
abbrev pub from_descriptor : ChunkDescriptor → ℤ → ℤ → IoAddress
from_descriptor desc offset nbytes = record {
  chunk_id = desc.chunk_id;
  base_gpa = desc.base_gpa;
  offset = offset;
  nbytes = nbytes;
  user_size = desc.user_size;
}

-- `IOAddress.from_block`: without a length, up to the end of the block.
unfoldable pub from_block : Block → ℤ → Option ℤ → IoAddress
from_block block offset length = record {
  chunk_id = block.chunk_id;
  base_gpa = block.gpa;
  offset = pos block.offset +ℤ offset;
  nbytes = elim length [ none ↦ pos block.size -ℤ offset | some n ↦ n ];
  user_size = block.chunk_size;
}

pub record IoRequest : Type 0 where
  pub address : IoAddress
  pub buffer : Bytes

-- What a request came to: the number of bytes, or the exception.
abbrev pub Outcome : Type 0
Outcome = Result ℕ

pub record IoHandle : Type 0 where
  pub requests : List IoRequest
  pub results : List (Option Outcome)
  pub remaining : ℕ
  pub callbacks : List ℕ
  pub fired : List ℕ

-- `IOHandle.__init__`
unfoldable pub new_handle : List IoRequest → IoHandle
new_handle requests = record {
  requests = requests;
  results = replicate (length requests) none;
  remaining = length requests;
  callbacks = [];
  fired = [];
}

-- `for index, value in pairs: self._results[index] = value`
unfoldable pub put_results : List (ℕ × Outcome) → List (Option Outcome) → List (Option Outcome)
put_results [] results = results
put_results ((i, r) ∷ pairs) results = put_results pairs (set results i (some r))

-- `_set_many`: with the last result the callbacks are called.
unfoldable pub set_many : List (ℕ × Outcome) → IoHandle → IoHandle
unfolding put_results
set_many pairs h =
    let left = h.remaining - length pairs in
    record h {
      results = put_results pairs h.results;
      remaining = left;
      fired = if ltb 0 left then h.fired else h.fired ++ h.callbacks;
    }

-- `done`
unfoldable pub done : IoHandle → Bool
done h = h.remaining == 0

-- The first exception among the results.
unfoldable pub first_failure : List (Option Outcome) → Option Error
first_failure [] = none
first_failure (none ∷ rest) = first_failure rest
first_failure (some (ok n) ∷ rest) = first_failure rest
first_failure (some (err e) ∷ rest) = some e

-- `results`, for a wait that ends now: by a timeout if the handle is not done.
unfoldable pub results_now : IoHandle → Result (List (Option Outcome))
unfolding done
results_now h = elim (done h) [ false ↦ err timeout_error | true ↦ ok h.results ]

-- `result`
unfoldable pub result_now : IoHandle → Result (List (Option Outcome))
unfolding done first_failure
result_now h = elim (done h) [
  | false ↦ err timeout_error
  | true ↦ elim (first_failure h.results) [ none ↦ ok h.results | some e ↦ err e ]
]

-- `exception`
unfoldable pub exception_now : IoHandle → Result (Option Error)
unfolding done first_failure
exception_now h = elim (done h) [ false ↦ err timeout_error | true ↦ ok (first_failure h.results) ]

-- `add_done_callback`: called at once if the handle is done.
unfoldable pub add_done_callback : ℕ → IoHandle → IoHandle
add_done_callback fn h =
    if ltb 0 h.remaining
    then record h { callbacks = h.callbacks ++ fn ∷ [] }
    else record h { fired = h.fired ++ fn ∷ [] }
