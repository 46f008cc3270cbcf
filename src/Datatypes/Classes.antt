-- ===== src/Datatypes/Classes.antt =====
-- The classes of data objects and the values that they write and read: `tc_map` of
-- pygridgain/datatypes/internal.py with the codes of type_codes.py, the nullable objects of
-- null_object.py, and what a client gives to a stream for binary objects.
use python_thin_client.Prelude.{
  ◌&&◌, ℕ, suc, Bool, true, false, not, Option, none, some, List, [], ◌∷◌, ◌==◌, if◌then◌else◌,
}
use python_thin_client.Prelude.Int.{ℤ}
use python_thin_client.Prelude.Outcome.{ok, raised, ◌>>=◌}
use python_thin_client.Prelude.Dict.{Dict, lookup, nat_key}
use python_thin_client.Datatypes.Wire.{type_error, Stream, Result, parse_error, field}
use python_thin_client.Utils.{Text}
use python_thin_client.Datatypes.Binary.{tc_complex_object}
use python_thin_client.Datatypes.Scalars.{
  Scalar, number_array, real_array, char_array, bool_array, byte, short, int, long, float, double,
  enum, binary_enum, write_scalar,
}
use python_thin_client.Datatypes.Scalars.Parse.{
  ScalarClass, numbers, reals, chars, bools, strings, uuids, dates, times, timestamps, enums,
  decimals, byte_arrays, number_arrays, real_arrays, char_arrays, bool_arrays, read_scalar,
}

-- `standard_type` of the arrays
pub data Standard : Type 0 where
  string_items uuid_items date_items timestamp_items time_items decimal_items : Standard

-- The classes of `tc_map`.
pub data DataClass : Type 0 where
  nulls : DataClass
  scalars : ScalarClass → DataClass
  standards : Standard → DataClass
  enum_arrays object_arrays collections maps binary_objects wrapped_objects : DataClass

-- A class that `GenericObjectMeta` makes: the name of the type, and the fields with their classes.
pub record BinaryClass : Type 0 where
  pub type_name : Text
  pub schema : List (Text × DataClass)

abbrev pub names_of : List (Text × DataClass) → List Text
names_of [] = []
names_of ((name, c) ∷ fields) = name ∷ names_of fields

-- `compact_footer` of the client
unfoldable pub is_compact : Option Bool → Bool
is_compact none = true
is_compact (some compact) = compact

-- The setter of `compact_footer`, which raises at another approach. A client without one takes over
-- that of the first object that it reads; one reading here keeps the approach that it began with.
unfoldable pub agrees : Option Bool → Bool → Bool
agrees none compact = true
agrees (some true) compact = compact
agrees (some false) compact = not compact

-- A wrapped object is its payload and the offset of its root; a binary object is its class, its version
-- and a value for each field of the class.
mutual
  pub data Value : Type 0 where
    null : Value
    scalar : Scalar → Value
    standard_array : Standard → List (Option Scalar) → Value
    enum_array : ℤ → List (Option Scalar) → Value
    object_array : ℤ → Items → Value
    collection : ℤ → Items → Value
    mapping : ℤ → Entries → Value
    binary : BinaryClass → ℤ → Items → Value
    wrapped : List ℕ → ℤ → Value

  pub data Items : Type 0 where
    nil : Items
    cons : Value → Items → Items

  pub data Entries : Type 0 where
    end : Entries
    entry : Value → Value → Entries → Entries

-- What the client gives to a stream: the approach to footers, None at first, and the registry of
-- classes by type and schema, asked after the server where it has none. `str.lower` is Python's, and so is
-- the equality of two values that are keys of dictionaries.
pub record Binaries : Type 0 where
  pub lower : Text → Text
  pub approach : Option Bool
  pub same_key : Value → Value → Bool
  pub registry : ℤ → ℤ → Option BinaryClass

-- Values that Python can hash: the others are lists, tuples with lists, dictionaries, and the objects of the classes for binary objects.
unfoldable pub is_scalar_key : Scalar → Bool
is_scalar_key (number_array k vs) = false
is_scalar_key (real_array k vs) = false
is_scalar_key (char_array units) = false
is_scalar_key (bool_array bs) = false
is_scalar_key x = true

unfoldable pub is_hashable : Value → Bool
unfolding is_scalar_key
is_hashable null = true
is_hashable (scalar x) = is_scalar_key x
is_hashable (wrapped payload offset) = true
is_hashable v = false

-- `d[key] = item`, and a dictionary that is made of entries one after the other
module _ (g : Binaries) where
  unfoldable pub put_entry : Value → Value → Entries → Entries
  put_entry key item end = entry key item end
  put_entry key item (entry j v es) =
      if g.same_key j key then entry j item es else entry j v (put_entry key item es)

  unfoldable pub add_entry : Value → Value → Entries → Result Entries
  unfolding is_hashable put_entry
  add_entry key item d = if is_hashable key then ok (put_entry key item d) else raised type_error

  unfoldable pub dict_of : Entries → Entries → Result Entries
  unfolding add_entry
  dict_of d end = ok d
  dict_of d (entry key item es) = do e ← add_entry key item d; dict_of e es

-- Whether `to_python` needs no client for a value: there is no binary object in it.
unfoldable mutual
  pub is_plain : Value → Bool
  is_plain null = true
  is_plain (scalar x) = true
  is_plain (standard_array k xs) = true
  is_plain (enum_array type_id xs) = true
  is_plain (object_array type_id xs) = plain_items xs
  is_plain (collection type_id xs) = plain_items xs
  is_plain (mapping type_id es) = plain_entries es
  is_plain (binary c version xs) = false
  is_plain (wrapped payload offset) = true

  pub plain_items : Items → Bool
  plain_items nil = true
  plain_items (cons x xs) = is_plain x && plain_items xs

  pub plain_entries : Entries → Bool
  plain_entries end = true
  plain_entries (entry k v es) = is_plain k && is_plain v && plain_entries es

abbrev pub element_class : Standard → ScalarClass
element_class string_items = strings
element_class uuid_items = uuids
element_class date_items = dates
element_class timestamp_items = timestamps
element_class time_items = times
element_class decimal_items = decimals

abbrev pub standard_code : Standard → ℕ
standard_code string_items = 0x14
standard_code uuid_items = 0x15
standard_code date_items = 0x16
standard_code timestamp_items = 0x22
standard_code time_items = 0x25
standard_code decimal_items = 0x1f

abbrev pub tc_null : ℕ
tc_null = 0x65

abbrev pub type_codes : Dict ℕ DataClass
type_codes =
    (tc_null, nulls)
    ∷ (0x01, scalars (numbers byte))
    ∷ (0x02, scalars (numbers short))
    ∷ (0x03, scalars (numbers int))
    ∷ (0x04, scalars (numbers long))
    ∷ (0x05, scalars (reals float))
    ∷ (0x06, scalars (reals double))
    ∷ (0x07, scalars chars)
    ∷ (0x08, scalars bools)
    ∷ (0x0a, scalars uuids)
    ∷ (0x0b, scalars dates)
    ∷ (0x21, scalars timestamps)
    ∷ (0x24, scalars times)
    ∷ (0x1c, scalars (enums enum))
    ∷ (0x26, scalars (enums binary_enum))
    ∷ (0x0c, scalars byte_arrays)
    ∷ (0x0d, scalars (number_arrays short))
    ∷ (0x0e, scalars (number_arrays int))
    ∷ (0x0f, scalars (number_arrays long))
    ∷ (0x10, scalars (real_arrays float))
    ∷ (0x11, scalars (real_arrays double))
    ∷ (0x12, scalars char_arrays)
    ∷ (0x13, scalars bool_arrays)
    ∷ (0x15, standards uuid_items)
    ∷ (0x16, standards date_items)
    ∷ (0x22, standards timestamp_items)
    ∷ (0x25, standards time_items)
    ∷ (0x1d, enum_arrays)
    ∷ (0x09, scalars strings)
    ∷ (0x14, standards string_items)
    ∷ (0x1e, scalars decimals)
    ∷ (0x1f, standards decimal_items)
    ∷ (0x17, object_arrays)
    ∷ (0x18, collections)
    ∷ (0x19, maps)
    ∷ (tc_complex_object, binary_objects)
    ∷ (0x1b, wrapped_objects)
    ∷ []

-- `tc_map`, which raises at an unknown code
unfoldable pub tc_map : ℕ → Result DataClass
tc_map code = elim (lookup code type_codes) [ some c ↦ ok c | none ↦ raised parse_error ]

-- `Nullable.from_python`
unfoldable pub write_nullable : Option Scalar → Result (List ℕ)
write_nullable none = ok (tc_null ∷ [])
write_nullable (some x) = write_scalar x

-- A class other than the one of the code may be meant: only the code of None is looked at.
unfoldable pub read_nullable : ScalarClass → Stream → Result (Option Scalar × Stream)
read_nullable c s = do
  (code, s1) ← field 1 s
  if code == tc_null then ok (none, s1) else (read_scalar c s1 >>= λ r. ok (some r.0, r.1))

abbrev pub count : Items → ℕ
count nil = 0
count (cons x xs) = suc (count xs)

abbrev pub count_entries : Entries → ℕ
count_entries end = 0
count_entries (entry k v es) = suc (count_entries es)
