-- ===== src/Mysqlpp/Statement.antt =====
-- src/mysqlpp_statement.cpp: the values that are bound to the parameters of a statement. The client
-- is given the addresses of the values, and reads them when the statement is executed.
use waspp.Base.{
  set_at, replicate, ℕ, zero, suc, Bool, true, false, List, [], ◌∷◌, leb, if◌then◌else◌, Option,
  none, some, is_empty, not, ◌&&◌, ltb,
}

-- `enum_field_types`, as far as the wrappers use it.
pub data FieldType : Type 0 where
  tiny short long long_long float double string blob null : FieldType

-- `st_mysql_bind`, as far as the wrappers use it. A pointer to a length is the index of the entry of
-- `lengths` that it points to.
pub record Bind : Type 0 where
  pub buffer_type : FieldType
  pub buffer : ℕ
  pub is_unsigned : Bool
  pub is_null : Option ℕ
  pub length : Option ℕ
  pub buffer_length : ℕ

-- `st_mysql_bind()`: all zero. `MYSQL_TYPE_DECIMAL` is 0, but no such bind is given to the client;
-- `null` holds its place.
abbrev pub no_bind : Bind
no_bind = record {
  buffer_type = null;
  buffer = 0;
  is_unsigned = false;
  is_null = none;
  length = none;
  buffer_length = 0;
}

pub record Statement : Type 0 where
  pub param_count : ℕ
  pub bind_index : ℕ
  pub binds : List Bind
  pub lengths : List ℕ

-- The constructor, for a query of `n` parameters.
abbrev pub statement : ℕ → Statement
statement n = record {
  param_count = n;
  bind_index = 0;
  binds = replicate n no_bind;
  lengths = replicate n 0;
}

-- What is bound: the overloads of `param`, `param_blob` and `param_null`, with the address of the
-- value, and the size of a string.
pub data Value : Type 0 where
  uint8 int16 uint16 int32 uint32 int64 uint64 float_value double_value : ℕ → Value
  string_value blob_value : ℕ → ℕ → Value
  null_value : ℕ → Value

-- A number of that type.
abbrev pub number : FieldType → Bool → ℕ → Bind
number t unsigned a = record {
  buffer_type = t;
  buffer = a;
  is_unsigned = unsigned;
  is_null = none;
  length = none;
  buffer_length = 0;
}

-- A value with its length, which stands in `lengths` at `i`.
abbrev pub measured : FieldType → ℕ → ℕ → ℕ → Bind
measured t i a size = record {
  buffer_type = t;
  buffer = a;
  is_unsigned = false;
  is_null = none;
  length = some i;
  buffer_length = size;
}

-- The bind that a value becomes in the place `i`, which is new.
unfoldable pub bind_of : ℕ → Value → Bind
bind_of i (uint8 a) = number tiny true a
bind_of i (int16 a) = number short false a
bind_of i (uint16 a) = number short true a
bind_of i (int32 a) = number long false a
bind_of i (uint32 a) = number long true a
bind_of i (int64 a) = number long_long false a
bind_of i (uint64 a) = number long_long true a
bind_of i (float_value a) = measured float i a 0
bind_of i (double_value a) = measured double i a 0
bind_of i (string_value a size) = measured string i a size
bind_of i (blob_value a size) = measured blob i a size
bind_of i (null_value a) = record no_bind { buffer_type = null; is_null = some a }

-- The length that goes with it.
unfoldable pub length_of : Value → ℕ → ℕ
length_of (float_value a) l = 4
length_of (double_value a) l = 8
length_of (string_value a size) l = size
length_of (blob_value a size) l = size
length_of _ l = l

abbrev pub value_at : List ℕ → ℕ → ℕ
value_at [] i = 0
value_at (x ∷ xs) zero = x
value_at (x ∷ xs) (suc i) = value_at xs i

-- `param`, with the test of `get_bind`; `none`: it throws.
unfoldable pub param : Value → Statement → Option Statement
unfolding bind_of length_of
param v s =
    let i = s.bind_index in
    if leb s.param_count i
    then none
    else some (record s {
      bind_index = suc i;
      binds = set_at s.binds i (bind_of i v);
      lengths = set_at s.lengths i (length_of v (value_at s.lengths i));
    })

-- Several values, one after another.
unfoldable pub params : List Value → Statement → Option Statement
unfolding param
params [] s = some s
params (v ∷ vs) s = elim (param v s) [ none ↦ none | some s' ↦ params vs s' ]

-- The client: whether it accepts the binds, and how many rows the execution changed, or that it failed.
pub record Client : Type 0 where
  pub bind_param : List Bind → List ℕ → Bool
  pub run : Option ℕ

-- `execute`; `none`: it throws.
unfoldable pub execute : Client → Statement → Option ℕ
execute client s =
    if ltb 0 s.param_count && not (is_empty s.binds) && not (client.bind_param s.binds s.lengths)
    then none
    else client.run
