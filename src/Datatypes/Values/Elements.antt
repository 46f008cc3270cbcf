-- ===== src/Datatypes/Values/Elements.antt =====
-- What the format holds, and the elements of arrays of standard objects.
use python_thin_client.Prelude.{
  ℕ, ◌^◌, ◌<◌, ◌≡◌, refl, false, Option, none, some, List, [], ◌∷◌, ◌++◌, ◌==◌, length, All, arith,
}
use python_thin_client.Prelude.Outcome.{ok}
use python_thin_client.Prelude.Dict.{lookup}
use python_thin_client.Datatypes.Wire.{field_byte}
use python_thin_client.Datatypes.Scalars.{
  Scalar, number, real, char, bool, string, uuid, date, time, timestamp, enumerator, decimal,
  byte_array, number_array, real_array, char_array, bool_array, byte, short, int, long, float,
  double, enum, binary_enum, write_array, Fits,
}
use python_thin_client.Datatypes.Scalars.Parse.{ScalarClass, enums, read_array}
use python_thin_client.Datatypes.Scalars.Laws.{Reads, read_array-write_array}
use python_thin_client.Datatypes.Scalars.Objects.{class_of, code_of, Holds}
use python_thin_client.Datatypes.Scalars.RoundTrip.{write_scalar-read_scalar}
use python_thin_client.Utils.{Text, fields, schema_id}
use python_thin_client.Datatypes.Binary.{name_id}
use python_thin_client.Datatypes.Values.{
  Value, null, scalar, standard_array, enum_array, object_array, collection, mapping, wrapped,
  binary, Items, nil, cons, Entries, end, entry, element_class, tc_null, DataClass, nulls, scalars,
  standards, enum_arrays, object_arrays, collections, maps, binary_objects, wrapped_objects,
  BinaryClass, Binaries, names_of, tc_map, class_for, write_nullable, read_nullable, count,
  count_entries, dict_of,
}

abbrev pub NullableHolds : ScalarClass → Option Scalar → Type 0
NullableHolds c none = Unit {0}
NullableHolds c (some x) = (class_of x ≡ c) × Holds x

-- The class of a value, and the type code that stands for it.
abbrev pub value_class : Value → DataClass
value_class null = nulls
value_class (scalar x) = scalars (class_of x)
value_class (standard_array k xs) = standards k
value_class (enum_array type_id xs) = enum_arrays
value_class (object_array type_id xs) = object_arrays
value_class (collection type_id xs) = collections
value_class (mapping type_id es) = maps
value_class (binary c version xs) = binary_objects
value_class (wrapped payload offset) = wrapped_objects

abbrev pub Asks : Option DataClass → DataClass → Type 0
Asks none k = Unit {0}
Asks (some c) k = c ≡ k

-- A value that a class takes: one of its own, or None.
abbrev pub Takes : Option DataClass → Value → Type 0
Takes asked null = Unit {0}
Takes asked v = Asks asked (value_class v)

pub Takes-none : (v : Value) → Takes none v
Takes-none null = tt
Takes-none (scalar x) = tt
Takes-none (standard_array k xs) = tt
Takes-none (enum_array type_id xs) = tt
Takes-none (object_array type_id xs) = tt
Takes-none (collection type_id xs) = tt
Takes-none (mapping type_id es) = tt
Takes-none (binary c version xs) = tt
Takes-none (wrapped payload offset) = tt

-- The class that reads an object is the one that wrote it.
pub class_for_lem :
    (asked : Option DataClass) (code : ℕ) (k : DataClass)
    → Asks asked k
    → tc_map code ≡ ok k
    → (code == tc_null) ≡ false
    → class_for asked code ≡ ok k
unfolding class_for
class_for_lem none code k a known other = known
class_for_lem (some c) code k a known other = rw (other, a) refl

pub class_for_null : (asked : Option DataClass) → class_for asked tc_null ≡ ok nulls
unfolding class_for tc_map lookup
class_for_null none = refl
class_for_null (some c) = refl

module _ (g : Binaries) where
  -- The client knows the class under the identifiers that an object of it carries, and writes footers
  -- in the approach that it has.
  abbrev pub IsRegistered : BinaryClass → Type 0
  IsRegistered c =
      g.registry (name_id g.lower c.type_name) (schema_id g.lower (fields (names_of c.schema)))
      ≡ some c

  -- The values that the format holds: no wrapped objects, which the client does not send, elements of
  -- the class of their array, maps that a dictionary can be, a value for each field of a class that is registered, and numbers and
  -- lengths within their fields.
  unfoldable mutual
    pub ValueHolds : Value → Type 0
    ValueHolds null = Unit {0}
    ValueHolds (scalar x) = Holds x
    ValueHolds (standard_array k xs) =
        (length xs < 2 ^ 31) × All (NullableHolds (element_class k)) xs
    ValueHolds (enum_array type_id xs) =
        Fits 32 type_id × (length xs < 2 ^ 31) × All (NullableHolds (enums enum)) xs
    ValueHolds (object_array type_id xs) = Fits 32 type_id × (count xs < 2 ^ 31) × ItemsHold xs
    ValueHolds (collection type_id xs) = Fits 8 type_id × (count xs < 2 ^ 31) × ItemsHold xs
    ValueHolds (mapping type_id es) =
        Fits 8 type_id × (count_entries es < 2 ^ 31) × EntriesHold es × (dict_of g end es ≡ ok es)
    ValueHolds (binary c version xs) = Fits 8 version × IsRegistered c × FieldsHold xs c.schema
    ValueHolds (wrapped payload offset) = ⊥

    pub ItemsHold : Items → Type 0
    ItemsHold nil = Unit {0}
    ItemsHold (cons x xs) = ValueHolds x × ItemsHold xs

    pub EntriesHold : Entries → Type 0
    EntriesHold end = Unit {0}
    EntriesHold (entry k v es) = ValueHolds k × ValueHolds v × EntriesHold es

    pub FieldsHold : Items → List (Text × DataClass) → Type 0
    FieldsHold nil [] = Unit {0}
    FieldsHold (cons x xs) ((field_name, c) ∷ others) =
        Takes (some c) x × ValueHolds x × FieldsHold xs others
    FieldsHold nil ((field_name, c) ∷ others) = ⊥
    FieldsHold (cons x xs) [] = ⊥

-- The type code of a scalar is that of its class, and not that of None.
pub tc_map-code_of :
    (x : Scalar)
    → Holds x
    → (tc_map (code_of (class_of x)) ≡ ok (scalars (class_of x)))
      × ((code_of (class_of x) == tc_null) ≡ false)
unfolding tc_map lookup
tc_map-code_of (number byte v) h = (refl, refl)
tc_map-code_of (number short v) h = (refl, refl)
tc_map-code_of (number int v) h = (refl, refl)
tc_map-code_of (number long v) h = (refl, refl)
tc_map-code_of (real float v) h = (refl, refl)
tc_map-code_of (real double v) h = (refl, refl)
tc_map-code_of (enumerator enum t o) h = (refl, refl)
tc_map-code_of (enumerator binary_enum t o) h = (refl, refl)
tc_map-code_of (number_array byte vs) h = absurd h.0
tc_map-code_of (number_array short vs) h = (refl, refl)
tc_map-code_of (number_array int vs) h = (refl, refl)
tc_map-code_of (number_array long vs) h = (refl, refl)
tc_map-code_of (real_array float vs) h = (refl, refl)
tc_map-code_of (real_array double vs) h = (refl, refl)
tc_map-code_of (char u) h = (refl, refl)
tc_map-code_of (bool b) h = (refl, refl)
tc_map-code_of (string bs) h = (refl, refl)
tc_map-code_of (uuid bs) h = (refl, refl)
tc_map-code_of (date e) h = (refl, refl)
tc_map-code_of (time e) h = (refl, refl)
tc_map-code_of (timestamp e f) h = (refl, refl)
tc_map-code_of (decimal g n e) h = (refl, refl)
tc_map-code_of (byte_array bs) h = (refl, refl)
tc_map-code_of (char_array us) h = (refl, refl)
tc_map-code_of (bool_array bs) h = (refl, refl)

pub read_nullable_lem :
    (c : ScalarClass) (o : Option Scalar)
    → NullableHolds c o
    → Reads write_nullable (read_nullable c) o
unfolding write_nullable read_nullable
read_nullable_lem c none h = (tc_null ∷ [], refl, λ rest. rw (field_byte tc_null rest) refl)
read_nullable_lem c (some x) h =
    let (body, wrote, back) = write_scalar-read_scalar x h.1 in
    (
      code_of (class_of x) ∷ body,
      wrote,
      λ rest.
          rw
            (
              field_byte (code_of (class_of x)) (body ++ rest),
              (tc_map-code_of x h.1).1,
              ← h.0,
              back rest,
            )
            refl,
    )

pub nullables :
    (c : ScalarClass) (xs : List (Option Scalar))
    → length xs < 2 ^ 31
    → All (NullableHolds c) xs
    → Reads (write_array write_nullable) (read_array (read_nullable c)) xs
nullables c xs small h =
    read_array-write_array write_nullable (read_nullable c) xs (every xs h) (omega arith)
  where
    every :
        (ys : List (Option Scalar))
        → All (NullableHolds c) ys
        → All (Reads write_nullable (read_nullable c)) ys
    every [] k = tt
    every (y ∷ ys) k = (read_nullable_lem c y k.0, every ys k.1)
