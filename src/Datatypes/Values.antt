-- ===== src/Datatypes/Values.antt =====
-- Data objects that hold others, and the choice of the class by the type code:
-- pygridgain/datatypes/null_object.py, internal.py (`tc_map`, `AnyDataObject.parse`), complex.py and
-- the arrays of standard objects in standard.py. A value has with it the class that writes it, as a
-- type hint gives it.
pub mod Depth
pub mod Elements
pub mod Trips
pub mod Objects
pub mod RoundTrip
mod Runs
use python_thin_client.Prelude.{
  ℕ, zero, suc, ◌+◌, ◌≤◌, Bool, true, false, not, Option, none, some, List, [], ◌∷◌, ◌++◌, ◌==◌,
  if◌then◌else◌, length,
}
use python_thin_client.Prelude.Int.{ℤ, pos, negsuc}
use python_thin_client.Prelude.Outcome.{Outcome, ok, raised, ◌>>=◌}
use python_thin_client.Prelude.Dict.{Dict, lookup, nat_key}
use python_thin_client.Datatypes.Wire.{
  Stream, CodecError, Result, parse_error, recursion_error, runtime_error, warning, field, raw,
}
use python_thin_client.Utils.{Text}
use python_thin_client.Datatypes.Binary.{
  tc_complex_object, compact_footer, has_flag, footer_size, write_object,
}
use python_thin_client.Datatypes.Scalars.{
  Scalar, byte, short, int, long, float, double, enum, binary_enum, get_int, put_int, pack_nat,
  pack_signed, write_scalar, write_array,
}
use python_thin_client.Datatypes.Scalars.Parse.{
  ScalarClass, numbers, reals, chars, bools, strings, uuids, dates, times, timestamps, enums,
  decimals, byte_arrays, number_arrays, real_arrays, char_arrays, bool_arrays, read_scalar,
  read_array,
}
unfoldable pub use python_thin_client.Datatypes.Classes.{
  is_scalar_key, is_hashable, put_entry, add_entry, dict_of, is_plain, plain_items, plain_entries,
  is_compact, agrees, tc_map, write_nullable, read_nullable,
}
pub use python_thin_client.Datatypes.Classes.{
  Standard, DataClass, BinaryClass, names_of, Binaries, Value, Items, Entries, element_class,
  standard_code, tc_null, type_codes, count, count_entries, string_items, uuid_items, date_items,
  timestamp_items, time_items, decimal_items, nulls, scalars, standards, enum_arrays, object_arrays,
  collections, maps, binary_objects, wrapped_objects, null, scalar, standard_array, enum_array,
  object_array, collection, mapping, binary, wrapped, nil, cons, end, entry,
}

module _ (g : Binaries) where
  unfoldable mutual
    unfolding write_nullable write_array pack_nat pack_signed write_object is_compact

    -- `from_python`
    pub write_value : Value → Result (List ℕ)
    write_value null = ok (tc_null ∷ [])
    write_value (scalar x) = write_scalar x
    write_value (standard_array k xs) = do
      body ← write_array write_nullable xs
      ok (standard_code k ∷ body)
    write_value (enum_array type_id xs) = do
      header ← pack_signed 4 type_id
      body ← write_array write_nullable xs
      ok (0x1d ∷ (header ++ body))
    write_value (object_array type_id xs) = do
      header ← pack_signed 4 type_id
      size ← pack_nat 4 (count xs)
      body ← write_items xs
      ok (0x17 ∷ (header ++ (size ++ body)))
    write_value (collection type_id xs) = do
      size ← pack_nat 4 (count xs)
      header ← pack_signed 1 type_id
      body ← write_items xs
      ok (0x18 ∷ (size ++ (header ++ body)))
    write_value (mapping type_id es) = do
      size ← pack_nat 4 (count_entries es)
      header ← pack_signed 1 type_id
      body ← write_entries es
      ok (0x19 ∷ (size ++ (header ++ body)))
    write_value (binary c version xs) = do
      parts ← write_parts xs
      ok (
          tc_complex_object
          ∷ write_object g.lower (is_compact g.approach) version c.type_name (names_of c.schema)
              parts)
    write_value (wrapped payload offset) = raised parse_error

    pub write_items : Items → Result (List ℕ)
    write_items nil = ok []
    write_items (cons x xs) = do head ← write_value x; tail ← write_items xs; ok (head ++ tail)

    pub write_entries : Entries → Result (List ℕ)
    write_entries end = ok []
    write_entries (entry k v es) = do
      key ← write_value k
      value ← write_value v
      rest ← write_entries es
      ok (key ++ (value ++ rest))

    -- the fields of a binary object, each by itself
    pub write_parts : Items → Result (List (List ℕ))
    write_parts nil = ok []
    write_parts (cons x xs) = do part ← write_value x; parts ← write_parts xs; ok (part ∷ parts)

-- The class for an object: the one that is asked for, unless it is None, or that of the type code.
unfoldable pub class_for : Option DataClass → ℕ → Result DataClass
unfolding tc_map
class_for none code = tc_map code
class_for (some c) code = if code == tc_null then ok nulls else ok c

module _ (g : Binaries) (read : Option DataClass → Stream → Result (Value × Stream)) where
  unfoldable pub read_items : ℕ → Stream → Result (Items × Stream)
  read_items zero s = ok (nil, s)
  read_items (suc n) s = do (x, s1) ← read none s; (xs, s2) ← read_items n s1; ok (cons x xs, s2)

  unfoldable pub read_entries : ℕ → Stream → Result (Entries × Stream)
  read_entries zero s = ok (end, s)
  read_entries (suc n) s = do
    (k, s1) ← read none s
    (v, s2) ← read none s1
    (es, s3) ← read_entries n s2
    ok (entry k v es, s3)

  -- the fields by the schema of the class
  unfoldable pub read_fields : List (Text × DataClass) → Stream → Result (Items × Stream)
  read_fields [] s = ok (nil, s)
  read_fields ((name, c) ∷ fields) s = do
    (x, s1) ← read (some c) s
    (xs, s2) ← read_fields fields s1
    ok (cons x xs, s2)

  -- `get_dataclass`
  unfoldable pub get_dataclass : ℤ → ℤ → Result BinaryClass
  get_dataclass type_id schema_id = elim (g.registry type_id schema_id) [
    | some c ↦ ok c
    | none ↦ raised runtime_error
  ]

  -- a `BinaryObject` behind its type code
  unfoldable pub read_binary : Stream → Result (Value × Stream)
  unfolding get_int read_fields get_dataclass footer_size has_flag agrees
  read_binary s = do
    (version, s1) ← get_int 1 s
    (flags, s2) ← get_int 2 s1
    (type_id, s3) ← get_int 4 s2
    (hash_code, s4) ← get_int 4 s3
    (size, s5) ← get_int 4 s4
    (schema_id, s6) ← get_int 4 s5
    (schema_offset, s7) ← get_int 4 s6
    c ← get_dataclass type_id schema_id
    (xs, s8) ← read_fields c.schema s7
    (schema, s9) ← raw (footer_size flags (length c.schema)) s8
    (if agrees g.approach (has_flag flags compact_footer)
        then ok (binary c version xs, s9)
        else raised warning)

  -- `parse` and `to_python` of a class, behind the type code
  unfoldable pub read_as : DataClass → Stream → Result (Value × Stream)
  unfolding read_nullable read_array get_int read_binary dict_of
  read_as nulls s = ok (null, s)
  read_as (scalars c) s = do (x, s1) ← read_scalar c s; ok (scalar x, s1)
  read_as (standards k) s = do
    (xs, s1) ← read_array (read_nullable (element_class k)) s
    ok (standard_array k xs, s1)
  read_as enum_arrays s = do
    (type_id, s1) ← get_int 4 s
    (xs, s2) ← read_array (read_nullable (enums enum)) s1
    ok (enum_array type_id xs, s2)
  read_as object_arrays s = do
    (type_id, s1) ← get_int 4 s
    (n, s2) ← field 4 s1
    (xs, s3) ← read_items n s2
    ok (object_array type_id xs, s3)
  read_as collections s = do
    (n, s1) ← field 4 s
    (type_id, s2) ← get_int 1 s1
    (xs, s3) ← read_items n s2
    ok (collection type_id xs, s3)
  read_as maps s = do
    (n, s1) ← field 4 s
    (type_id, s2) ← get_int 1 s1
    (es, s3) ← read_entries n s2
    d ← dict_of g end es
    ok (mapping type_id d, s3)
  read_as binary_objects s = read_binary s
  read_as wrapped_objects s = do
    (n, s1) ← field 4 s
    (payload, s2) ← raw n s1
    (offset, s3) ← get_int 4 s2
    ok (wrapped payload offset, s3)

-- `Nullable.parse` and `to_python` of a class, or those of `AnyDataObject`. The fuel is the depth of
-- nesting that the interpreter's stack has room for.
unfoldable pub read_object : Binaries → ℕ → Option DataClass → Stream → Result (Value × Stream)
unfolding class_for read_as
read_object g zero asked s = raised recursion_error
read_object g (suc fuel) asked s = do
  (code, s1) ← field 1 s
  c ← class_for asked code
  read_as g (read_object g fuel) c s1

-- `AnyDataObject.parse` and `to_python`
unfoldable pub read_value : Binaries → ℕ → Stream → Result (Value × Stream)
unfolding read_object
read_value g fuel s = read_object g fuel none s
