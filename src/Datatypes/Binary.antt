-- ===== src/Datatypes/Binary.antt =====
-- The layout of a binary object: pygridgain/binary.py (`write_header`, `write_footer` and the offsets in
-- `_from_python`) and `BinaryObject` of pygridgain/datatypes/complex.py. The bytes of the fields are
-- given; Datatypes/Values writes and reads them.
pub mod Offsets
pub mod Positions
pub mod Footer
mod Runs
pub mod Identifiers
use Prim.Native.Nat.{max}
use python_thin_client.Prelude.{
  ℕ, zero, suc, ◌+◌, ◌*◌, ◌<◌, Bool, true, false, not, List, [], ◌∷◌, ◌++◌, ltb, ◌==◌,
  if◌then◌else◌, length, concat, bit_or,
}
use python_thin_client.Prelude.Int.{ℤ, pos}
use python_thin_client.Prelude.Numbers.{and_mask}
use python_thin_client.Datatypes.Wire.{to_bytes}
use python_thin_client.Datatypes.Scalars.{put_int}
use python_thin_client.Utils.{Text, Hashed, str, bytes, hashcode, fields, schema_id}

abbrev pub tc_complex_object : ℕ
tc_complex_object = 0x67

abbrev pub user_type : ℕ
user_type = 0x0001

abbrev pub has_schema : ℕ
has_schema = 0x0002

abbrev pub offset_one_byte : ℕ
offset_one_byte = 0x0008

abbrev pub offset_two_bytes : ℕ
offset_two_bytes = 0x0010

abbrev pub compact_footer : ℕ
compact_footer = 0x0020

-- ctypes.sizeof of the header, with the type code
abbrev pub header_len : ℕ
header_len = 24

-- max(offsets, default=0)
unfoldable pub max_of : List ℕ → ℕ
max_of [] = 0
max_of (o ∷ os) = max o (max_of os)

-- the loop over the fields, from the offsets so far
unfoldable pub collect : List ℕ → List (List ℕ) → List ℕ
unfolding max_of
collect offsets [] = offsets
collect offsets (part ∷ parts) = collect (offsets ++ (max_of offsets + length part) ∷ []) parts

-- offsets[:-1]
unfoldable pub but_last : List ℕ → List ℕ
but_last [] = []
but_last (o ∷ []) = []
but_last (o ∷ p ∷ os) = o ∷ but_last (p ∷ os)

unfoldable pub offsets_of : List (List ℕ) → List ℕ
unfolding collect but_last
offsets_of parts = but_last (collect (header_len ∷ []) parts)

-- the bits that `write_footer` adds for the size of the offsets
unfoldable pub offset_flag : List ℕ → ℕ
unfolding max_of
offset_flag offsets =
    if ltb (max_of offsets) 255
    then offset_one_byte
    else if ltb (max_of offsets) 65535
    then offset_two_bytes
    else 0

unfoldable pub flags_of : Bool → List ℕ → ℕ
unfolding offset_flag
flags_of compact offsets =
    bit_or (bit_or (bit_or user_type has_schema) (if compact then compact_footer else 0))
      (offset_flag offsets)

unfoldable pub has_flag : ℤ → ℕ → Bool
unfolding and_mask
has_flag flags mask = not (and_mask flags mask == 0)

-- the size of `offset_c_type`
unfoldable pub offset_size : ℤ → ℕ
unfolding has_flag
offset_size flags =
    if has_flag flags offset_one_byte then 1 else if has_flag flags offset_two_bytes then 2 else 4

-- the size of `schema_type`
unfoldable pub element_size : ℤ → ℕ
unfolding has_flag offset_size
element_size flags =
    if has_flag flags compact_footer then offset_size flags else 4 + offset_size flags

-- what the parser skips behind the fields
unfoldable pub footer_size : ℤ → ℕ → ℕ
unfolding has_flag element_size
footer_size flags fields_len =
    if has_flag flags has_schema then fields_len * element_size flags else 0

-- `str.lower` is Python's.
module _ (lower : Text → Text) where
  -- entity_id of a name
  unfoldable pub name_id : Text → ℤ
  unfolding hashcode
  name_id name = hashcode (str (lower name))

  -- the elements of the schema array
  unfoldable pub elements : Bool → ℕ → List Text → List ℕ → List (List ℕ)
  unfolding put_int name_id
  elements true size names [] = []
  elements true size names (o ∷ os) = to_bytes size o ∷ elements true size names os
  elements false size [] os = []
  elements false size (name ∷ names) [] = []
  elements false size (name ∷ names) (o ∷ os) =
      (put_int 4 (name_id name) ++ to_bytes size o) ∷ elements false size names os

  -- The object behind its type code: header, fields, footer.
  unfoldable pub write_object : Bool → ℤ → Text → List Text → List (List ℕ) → List ℕ
  unfolding flags_of offset_size elements put_int hashcode schema_id name_id
  write_object compact version type_name names parts =
      let data_bytes = concat parts in
      let offsets = offsets_of parts in
      let flags = flags_of compact offsets in
      let schema = concat (elements compact (offset_size (pos flags)) names offsets) in
      let schema_offset = length data_bytes + header_len in
      put_int 1 version
      ++ (put_int 2 (pos flags)
          ++ (put_int 4 (name_id type_name)
              ++ (put_int 4 (hashcode (bytes data_bytes))
                  ++ (put_int 4 (pos (schema_offset + length schema))
                      ++ (put_int 4 (schema_id lower (fields names))
                          ++ (put_int 4 (pos schema_offset) ++ (data_bytes ++ schema)))))))
