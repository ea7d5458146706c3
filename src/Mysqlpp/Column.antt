-- ===== src/Mysqlpp/Column.antt =====
-- src/mysqlpp_result.cpp: the columns of a result, and their values. What the client stores in the
-- buffers is an argument. The reading of `float` and `double` is that of 4 and 8 bytes.
use waspp.Base.{
  replicate, ℕ, zero, suc, ◌+◌, ◌*◌, ◌-◌, ◌^◌, Bool, true, false, List, [], ◌∷◌, ◌==◌, ltb, leb,
  not, if◌then◌else◌, Bytes, equal, none, some, get_elem?, length, take,
}
use waspp.Mysqlpp.Statement.{FieldType, string}

-- `st_mysql_field`, as far as `bind` reads it; `is_datetime`: the type is `MYSQL_TYPE_DATETIME`.
pub record Field : Type 0 where
  pub name : Bytes
  pub field_type : FieldType
  pub is_datetime : Bool
  pub length : ℕ

-- `st_mysql_column`
pub record Column : Type 0 where
  pub name : Bytes
  pub field_type : FieldType
  pub buffer : Bytes
  pub length : ℕ
  pub is_null : ℕ

pub record ResultSet : Type 0 where
  pub field_count : ℕ
  pub columns : List Column

-- The loop of `bind`.
unfoldable pub bind_columns : List Field → List Column
bind_columns [] = []
bind_columns (f ∷ fs) =
    record {
      name = f.name;
      field_type = if f.is_datetime then string else f.field_type;
      buffer = replicate f.length 0;
      length = f.length;
      is_null = 0;
    }
    ∷ bind_columns fs

-- `bind`, and whether it returns true; the client accepts the binds.
unfoldable pub bind : List Field → ResultSet → Bool × ResultSet
unfolding bind_columns
bind [] r = (false, record r { field_count = 0 })
bind (f ∷ fs) r = (true, record { field_count = length (f ∷ fs); columns = bind_columns (f ∷ fs) })

-- A value, or an exception, or memory outside the buffer is read.
pub data Got {ℓ} (A : Type ℓ) : Type ℓ where
  got : A → Got A
  threw : Got A
  outside : Got A

-- `get_column(index)`
unfoldable pub column_at : ℕ → ResultSet → Got Column
column_at index r =
    if leb r.field_count index
    then threw
    else elim (get_elem? r.columns index) [ none ↦ outside | some c ↦ got c ]

-- The loop over the columns, from the one that stands first.
unfoldable pub search : Bytes → List Column → Got Column
search name [] = threw
search name (c ∷ cs) = if equal name c.name then got c else search name cs

-- `get_column(name)`
unfoldable pub column_named : Bytes → ResultSet → Got Column
unfolding search
column_named name r = search name r.columns

-- `is_null`
unfoldable pub is_null : Got Column → Got Bool
is_null (got c) = got (c.is_null == 1)
is_null threw = threw
is_null outside = outside

-- `get<T>`, over one of the two look-ups and one of the overloads of `set_value`.
unfoldable pub get_value {ℓ} : {A : Type ℓ} → (Column → Got A) → Got Column → Got A
get_value set_value (got c) = if not (c.is_null == 0) then threw else set_value c
get_value set_value threw = threw
get_value set_value outside = outside

-- A `char`, which is signed, in an integer of `w` bits, as its pattern.
abbrev pub sign_extend : ℕ → ℕ → ℕ
sign_extend w c = if ltb c 128 then c else 2 ^ w - 256 + c

-- `set_value` into an integer of 8, 16 or 32 bits, signed or not: `column.buffer.front()`.
unfoldable pub set_small : ℕ → Column → Got ℕ
set_small w col = elim col.buffer [ [] ↦ outside | c ∷ cs ↦ got (sign_extend w c) ]

-- The number in `n` bytes, the least significant one first.
unfoldable pub read_bytes : ℕ → Bytes → Got ℕ
read_bytes zero cs = got 0
read_bytes (suc n) [] = outside
read_bytes (suc n) (c ∷ cs) = elim (read_bytes n cs) [
  | got v ↦ got (c + 256 * v)
  | threw ↦ threw
  | outside ↦ outside
]

-- `set_value` into an integer of 64 bits.
unfoldable pub set_large : Column → Got ℕ
unfolding read_bytes
set_large col = read_bytes 8 col.buffer

-- `set_value` into a `std::string`.
unfoldable pub set_string : Column → Got Bytes
set_string col = elim col.buffer [
  | [] ↦ outside
  | c ∷ cs ↦ if leb col.length (length (c ∷ cs)) then got (take col.length (c ∷ cs)) else outside
]
