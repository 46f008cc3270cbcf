-- ===== src/Datatypes/Binary/Identifiers.antt =====
-- The range of the identifiers in the header of a binary object.
use python_thin_client.Prelude.{ℕ, List, [], ◌∷◌, arith}
use python_thin_client.Prelude.Int.{ℤ, pos, ◌-ℤ◌, ◌+ℤ◌, ◌*ℤ◌}
use python_thin_client.Prelude.Numbers.{xor_mask, and_mask-le, signed}
use python_thin_client.Datatypes.Scalars.{Fits}
use python_thin_client.Utils.{
  Text, int_overflow, hashcode_chars, hashcode_octets, hashcode, schema_field, schema_fields,
  fields, schema_id,
}
use python_thin_client.Datatypes.Binary.{name_id}

int_overflow-Fits : (v : ℤ) → Fits 32 (int_overflow v)
unfolding int_overflow ◌-ℤ◌
int_overflow-Fits v = ground (arith, and_mask-le (xor_mask v 0x80000000) 0xffffffff)

hashcode_chars-Fits : (r : ℤ) (chars : Text) → Fits 32 r → Fits 32 (hashcode_chars r chars)
unfolding hashcode_chars
hashcode_chars-Fits r [] h = h
hashcode_chars-Fits r (c ∷ cs) h =
    hashcode_chars-Fits (int_overflow (pos 31 *ℤ r +ℤ pos c)) cs (int_overflow-Fits _)

hashcode_octets-Fits : (r : ℤ) (octets : List ℕ) → Fits 32 r → Fits 32 (hashcode_octets r octets)
unfolding hashcode_octets
hashcode_octets-Fits r [] h = h
hashcode_octets-Fits r (b ∷ bs) h =
    hashcode_octets-Fits (int_overflow (pos 31 *ℤ r +ℤ signed 8 (pos b))) bs (int_overflow-Fits _)

module _ (lower : Text → Text) where
  pub name_id-Fits : (name : Text) → Fits 32 (name_id lower name)
  unfolding name_id hashcode
  name_id-Fits name = hashcode_chars-Fits (pos 0) (lower name) (omega arith)

  schema_fields-Fits :
      (s : ℤ) (name : Text) (names : List Text) → Fits 32 (schema_fields lower s (name ∷ names))
  unfolding schema_fields schema_field
  schema_fields-Fits s name [] = int_overflow-Fits _
  schema_fields-Fits s name (next ∷ names) =
      schema_fields-Fits (schema_field lower s name) next names

  pub schema_id-Fits : (names : List Text) → Fits 32 (schema_id lower (fields names))
  unfolding schema_id
  schema_id-Fits [] = omega arith
  schema_id-Fits (name ∷ names) = schema_fields-Fits _ name names
