-- ===== src/Bench/Trace.antt =====
-- `load_trace` of bmpclient/bench/single_ssd.py, behind the parser of JSON, which is Python's. A text
-- is a number: the texts of a file are numbered in their order, from the empty one, 0, on. What a
-- record holds under a name is an option; the fields from `warmup` on are those of a miss trace.
use ummwith_client.Prelude.{
  ℕ, zero, suc, ◌+◌, max, ltb, leb, ◌==◌, ◌&&◌, ◌||◌, Bool, Option, none, some, List, [], ◌∷◌,
  if◌then◌else◌, length, Result, ok, err, value_error, key_error, raise_if, ◌>>=◌, ◌>>◌,
}
use ummwith_client.Prelude.Int.{ℤ, pos, negsuc}
use ummwith_client.Bench.MultiDevice.{Lengths}

pub data Scalar : Type 0 where
  truth : Bool → Scalar
  int : ℤ → Scalar
  text : ℕ → Scalar
  other : Scalar

pub data Json : Type 0 where
  scalar : Scalar → Json
  array : List Scalar → Json

pub record Fields : Type 0 where
  pub request_id : Option Json
  pub step_id : Option Json
  pub layer_id : Option Json
  pub context_length : Option Json
  pub topk_token_indices : Option Json
  pub warmup : Option Json
  pub selected : Option Json
  pub cache_hits : Option Json
  pub fresh_hits : Option Json
  pub misses : Option Json
  pub replacements : Option Json
  pub cache_capacity : Option Json
  pub cache_strategy : Option Json

-- A line of the file: blank, refused by the parser, not an object, or an object.
pub data Line : Type 0 where
  blank malformed not_object : Line
  object : Fields → Line

pub record Record : Type 0 where
  pub request_id : ℕ
  pub step_id : ℕ
  pub layer_id : ℕ
  pub context_length : ℕ
  pub indices : List ℕ
  pub fields : Fields

pub record Trace : Type 0 where
  pub records : List Record
  pub bases : Lengths
  pub rows : ℕ

-- `integer`, whose type test refuses a bool.
unfoldable pub integer : Scalar → ℕ → Result ℕ
integer (truth b) minimum = err value_error
integer (int (pos n)) minimum = if ltb n minimum then err value_error else ok n
integer (int (negsuc n)) minimum = err value_error
integer (text t) minimum = err value_error
integer other minimum = err value_error

-- `integer(r[name], name, minimum)`
unfoldable pub integer_field : Option Json → ℕ → Result ℕ
unfolding integer
integer_field none minimum = err key_error
integer_field (some (scalar s)) minimum = integer s minimum
integer_field (some (array xs)) minimum = err value_error

-- The test of the request's name.
unfoldable pub name_field : Option Json → Result ℕ
name_field (some (scalar (text (suc t)))) = ok (suc t)
name_field (some (scalar (text zero))) = err value_error
name_field (some (scalar (truth b))) = err value_error
name_field (some (scalar (int n))) = err value_error
name_field (some (scalar other)) = err value_error
name_field (some (array xs)) = err value_error
name_field none = err value_error

-- The loop over the tokens.
unfoldable pub check_tokens : ℕ → List Scalar → Result (List ℕ)
unfolding integer
check_tokens ctx [] = ok []
check_tokens ctx (x ∷ xs) = do
  token ← integer x 0
  raise_if (leb ctx token) value_error
  tokens ← check_tokens ctx xs
  ok (token ∷ tokens)

unfoldable pub tokens_field : ℕ → ℕ → ℕ → Option Json → Result (List ℕ)
unfolding check_tokens
tokens_field ctx minimum max_topk none = err key_error
tokens_field ctx minimum max_topk (some (scalar s)) = err value_error
tokens_field ctx minimum max_topk (some (array xs)) = do
  raise_if (ltb (length xs) minimum || ltb max_topk (length xs)) value_error
  check_tokens ctx xs

-- The lines of the `try` block for an object.
unfoldable pub read_record : ℕ → ℕ → Fields → Result Record
unfolding integer_field name_field tokens_field
read_record minimum max_topk f = do
  request ← name_field f.request_id
  step ← integer_field f.step_id 0
  layer ← integer_field f.layer_id 0
  ctx ← integer_field f.context_length 1
  tokens ← tokens_field ctx minimum max_topk f.topk_token_indices
  ok (record {
    request_id = request;
    step_id = step;
    layer_id = layer;
    context_length = ctx;
    indices = tokens;
    fields = f;
  })

-- The handler: each of the errors becomes a ValueError that names the line.
abbrev pub on_line : {A : Type 0} → Result A → Result A
on_line (ok a) = ok a
on_line (err e) = err value_error

unfoldable pub read_lines : ℕ → ℕ → List Line → Result (List Record)
unfolding read_record
read_lines minimum max_topk [] = ok []
read_lines minimum max_topk (blank ∷ lines) = read_lines minimum max_topk lines
read_lines minimum max_topk (malformed ∷ lines) = err value_error
read_lines minimum max_topk (not_object ∷ lines) = err value_error
read_lines minimum max_topk (object f ∷ lines) = do
  r ← on_line (read_record minimum max_topk f)
  rs ← read_lines minimum max_topk lines
  ok (r ∷ rs)

-- The order and the equality of keys (request, layer).
abbrev pub key_eq : ℕ × ℕ → ℕ × ℕ → Bool
key_eq (r, l) (r', l') = (r == r') && (l == l')

abbrev pub key_lt : ℕ × ℕ → ℕ × ℕ → Bool
key_lt (r, l) (r', l') = ltb r r' || (r == r') && ltb l l'

abbrev pub key_of : Record → ℕ × ℕ
key_of r = (r.request_id, r.layer_id)

-- `lengths.get(key)`
abbrev pub base_of : ℕ × ℕ → Lengths → Option ℕ
base_of key [] = none
base_of key ((k, b) ∷ rest) = if key_eq k key then some b else base_of key rest

unfoldable pub insert_key : ℕ × ℕ → ℕ → Lengths → Lengths
insert_key key n [] = (key, n) ∷ []
insert_key key n ((k, m) ∷ rest) =
    if key_lt key k then (key, n) ∷ (k, m) ∷ rest else (k, m) ∷ insert_key key n rest

unfoldable pub update_key : ℕ × ℕ → ℕ → Lengths → Lengths
update_key key n [] = []
update_key key n ((k, m) ∷ rest) =
    if key_eq k key then (k, n) ∷ rest else (k, m) ∷ update_key key n rest

-- `lengths[key] = max(lengths.get(key, 0), n)`; the entries stand in the order of `sorted`.
unfoldable pub grow : ℕ × ℕ → ℕ → Lengths → Lengths
unfolding insert_key update_key
grow key n lengths = elim (base_of key lengths) [
  | none ↦ insert_key key n lengths
  | some m ↦ update_key key (max m n) lengths
]

unfoldable pub lengths_of : List Record → Lengths → Lengths
unfolding grow
lengths_of [] lengths = lengths
lengths_of (r ∷ rs) lengths = lengths_of rs (grow (key_of r) r.context_length lengths)

-- The loop over `sorted(lengths)`: the bases, and the rows in the end.
unfoldable pub lay_out : ℕ → Lengths → Lengths × ℕ
lay_out rows [] = ([], rows)
lay_out rows ((key, n) ∷ rest) =
    let (bases, total) = lay_out (rows + n) rest in ((key, rows) ∷ bases, total)

-- `load_trace`; `minimum` is 0 where a record may be empty, else 1.
unfoldable pub load_trace : ℕ → ℕ → List Line → Result Trace
unfolding read_lines lengths_of lay_out
load_trace minimum max_topk lines = do
  records ← read_lines minimum max_topk lines
  raise_if (length records == 0) value_error
  let (bases, rows) = lay_out 0 (lengths_of records [])
  ok (record { records = records; bases = bases; rows = rows })
