-- ===== src/Datatypes/Values/Runs.antt =====
-- Runs of writing and reading nested values.
use python_thin_client.Prelude.{◌≡◌, refl, none, some, [], ◌∷◌, arith, true, false, if◌then◌else◌}
use python_thin_client.Prelude.Int.{pos, negsuc, ◌-ℤ◌, ◌+ℤ◌, ◌*ℤ◌}
use python_thin_client.Prelude.Numbers.{eq_ℤ, and_mask, xor_mask}
use python_thin_client.Utils.{hashcode, hashcode_chars, int_overflow}
use python_thin_client.Datatypes.Binary.{name_id}
use python_thin_client.Prelude.Outcome.{raised}
use python_thin_client.Prelude.Dict.{lookup}
use python_thin_client.Datatypes.Wire.{parse_error, field, from_bytes}
use python_thin_client.Datatypes.Scalars.Parse.{numbers}
use python_thin_client.Datatypes.Scalars.{number, string, bool, short, date}
use python_thin_client.Datatypes.Values.{
  dict_of, Value, null, scalar, standard_array, collection, mapping, nil, cons, end, entry,
  date_items, read_value, read_object, class_for, tc_map, binary, BinaryClass, Binaries, scalars,
  collections,
}
use python_thin_client.Datatypes.Values.Elements.{ValueHolds}
use python_thin_client.Datatypes.Values.RoundTrip.{write_value-read_value}
use python_thin_client.Datatypes.Values.Trips.{Trip}

-- {'ab': [None, -2], True: [date, None]} with the types of a HASH_MAP and a USER_COL
abbrev nested : Value
nested = mapping (pos 1) (
    entry (scalar (string (97 ∷ 98 ∷ [])))
      (collection (pos 0) (cons null (cons (scalar (number short (negsuc 1))) nil)))
      (entry (scalar (bool true))
        (standard_array date_items (some (date (pos 86400000000)) ∷ none ∷ [])) end))

-- A class `P` with the fields `a`, a short, and `b`, a collection, the one class of the registry.
abbrev pair_class : BinaryClass
pair_class = record {
  type_name = 80 ∷ [];
  schema = (97 ∷ [], scalars (numbers short)) ∷ (98 ∷ [], collections) ∷ [];
}

abbrev client : Binaries
client = record {
  lower = λ t. t;
  approach = some false;
  same_key = λ a b. false;
  registry = λ type_id schema_id. if eq_ℤ type_id (pos 80) then some pair_class else none;
}

-- P(a=-2, b=[None, P(a=None, b=None)])
abbrev inner : Value
inner = binary pair_class (pos 1) (cons null (cons null nil))

abbrev outer : Value
outer = binary pair_class (pos 1) (
    cons (scalar (number short (negsuc 1)))
      (cons (collection (pos 1) (cons nested (cons inner nil))) nil))

nested_example : Trip client outer
unfolding ValueHolds name_id hashcode hashcode_chars int_overflow and_mask xor_mask ◌-ℤ◌ ◌+ℤ◌ ◌*ℤ◌
    eq_ℤ dict_of
nested_example = write_value-read_value client outer (
  omega arith,
  refl,
  (
    refl,
    omega arith,
    (
      refl,
      (
        omega arith,
        omega arith,
        (
          (
            omega arith,
            omega arith,
            (
              (omega arith, (omega arith, (omega arith, tt))),
              (omega arith, omega arith, (tt, (omega arith, tt))),
              (tt, (omega arith, ((refl, (omega arith, omega arith)), (tt, tt))), tt),
            ),
            refl,
          ),
          ((omega arith, refl, (tt, tt, (tt, tt, tt))), tt),
        ),
      ),
      tt,
    ),
  ),
)

-- No class has the code 0x66.
unknown_run : read_value client 3 (0x66 ∷ []) ≡ raised parse_error
unfolding read_value read_object class_for tc_map lookup field from_bytes
unknown_run = refl
