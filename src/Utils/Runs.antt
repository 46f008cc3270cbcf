-- ===== src/Utils/Runs.antt =====
-- Runs of hash codes and schema identifiers.
use python_thin_client.Prelude.{◌≡◌, refl, [], ◌∷◌}
use python_thin_client.Prelude.Int.{pos, ◌-ℤ◌, ◌+ℤ◌, ◌*ℤ◌}
use python_thin_client.Prelude.Numbers.{signed, to_signed, and_mask, xor_mask}
use python_thin_client.Utils.{Text, hashcode, str, schema_id, fields, fnv1_offset_basis}
use python_thin_client.Utils.Hashes.{hashcode_lem, hash_sum}
use python_thin_client.Utils.Fnv.{schema_id-fnv1, fnv1, field_bytes}

abbrev abc : Text
abc = 97 ∷ 98 ∷ 99 ∷ []

abbrev same : Text → Text
same t = t

hash_of_abc : hashcode (str abc) ≡ pos 96354
unfolding hashcode ◌-ℤ◌ and_mask xor_mask ◌+ℤ◌ ◌*ℤ◌
hash_of_abc = refl

hashcode_example : hashcode (str abc) ≡ signed 32 (hash_sum (str abc))
hashcode_example = hashcode_lem (str abc)

schema_id_example :
    (schema_id same (fields []) ≡ pos 0)
    × (schema_id same (fields (abc ∷ abc ∷ []))
        ≡ to_signed 32 (fnv1 fnv1_offset_basis (field_bytes same (abc ∷ abc ∷ []))))
schema_id_example = schema_id-fnv1 same abc (abc ∷ [])
