-- ===== src/Utils.antt =====
-- pygridgain/utils.py: hash codes and identifiers, and the small helpers. Text is a list of code
-- points, and bytes are numbers below 256. `hashcode` and `schema_id` are the versions in Python,
-- which the C extension replaces where it is built.
pub mod Hashes
pub mod Fnv
mod Runs
use python_thin_client.Prelude.{
  ℕ, zero, suc, ◌+◌, ◌-◌, ◌*◌, ◌/◌, ◌%◌, ◌^◌, ◌≤◌, ◌<◌, Bool, true, false, ◌&&◌, Option, none, some,
  List, [], ◌∷◌, ◌++◌, ltb, ◌==◌, if◌then◌else◌, bit_and, bit_xor, take, drop, leb,
}
use python_thin_client.Prelude.Int.{ℤ, pos, negsuc, ◌+ℤ◌, ◌-ℤ◌, ◌*ℤ◌}
use python_thin_client.Prelude.Numbers.{and_mask, xor_mask, shift_right, unsigned, signed}
use python_thin_client.Prelude.Outcome.{Outcome, ok, raised}

abbrev pub Text : Type 0
Text = List ℕ

abbrev pub long_mask : ℕ
long_mask = 0xffffffff

abbrev pub max_long : ℕ
max_long = 9223372036854775807

abbrev pub fnv1_offset_basis : ℕ
fnv1_offset_basis = 0x811c9dc5

abbrev pub fnv1_prime : ℕ
fnv1_prime = 0x01000193

-- The test `value > 0` comes first, so the subtraction is exact.
unfoldable pub is_pow2 : ℕ → Bool
is_pow2 value = ltb 0 value && (bit_and value (value - 1) == 0)

unfoldable pub int_overflow : ℤ → ℤ
int_overflow value = pos (and_mask (xor_mask value 0x80000000) 0xffffffff) -ℤ pos 0x80000000

-- the loop over the code points of a `str`
unfoldable pub hashcode_chars : ℤ → Text → ℤ
unfolding int_overflow
hashcode_chars result [] = result
hashcode_chars result (char ∷ chars) =
    hashcode_chars (int_overflow (pos 31 *ℤ result +ℤ pos char)) chars

-- the loop over a buffer, whose bytes are read as signed
unfoldable pub hashcode_octets : ℤ → List ℕ → ℤ
unfolding int_overflow
hashcode_octets result [] = result
hashcode_octets result (byte ∷ octets) =
    hashcode_octets (int_overflow (pos 31 *ℤ result +ℤ signed 8 (pos byte))) octets

-- The argument of `hashcode`: None, a `str`, or a bytes-like object.
pub data Hashed : Type 0 where
  nothing : Hashed
  str : Text → Hashed
  bytes : List ℕ → Hashed

unfoldable pub hashcode : Hashed → ℤ
unfolding hashcode_chars hashcode_octets
hashcode nothing = pos 0
hashcode (str chars) = hashcode_chars (pos 0) chars
hashcode (bytes octets) = hashcode_octets (pos 1) octets

-- A name or an ID, as the API takes a cache, a type or a field.
pub data Ident : Type 0 where
  id : ℤ → Ident
  name : Text → Ident

unfoldable pub cache_id : Ident → ℤ
unfolding hashcode
cache_id (id n) = n
cache_id (name s) = hashcode (str s)

-- `str.lower` is Python's.
module _ (lower : Text → Text) where
  unfoldable pub entity_id : Option Ident → Option ℤ
  unfolding hashcode
  entity_id none = none
  entity_id (some (id n)) = some n
  entity_id (some (name s)) = some (hashcode (str (lower s)))

  -- the four rounds of the loop body of `__schema_id_fallback`
  unfoldable pub schema_field : ℤ → Text → ℤ
  unfolding int_overflow hashcode
  schema_field s_id field_name =
      let field_id = hashcode (str (lower field_name)) in
      let s1 = int_overflow (xor_mask s_id (and_mask field_id 0xff) *ℤ pos fnv1_prime) in
      let s2 =
        int_overflow (xor_mask s1 (and_mask (shift_right field_id 8) 0xff) *ℤ pos fnv1_prime) in
      let s3 =
        int_overflow (xor_mask s2 (and_mask (shift_right field_id 16) 0xff) *ℤ pos fnv1_prime) in
      int_overflow (xor_mask s3 (and_mask (shift_right field_id 24) 0xff) *ℤ pos fnv1_prime)

  unfoldable pub schema_fields : ℤ → List Text → ℤ
  unfolding schema_field
  schema_fields s_id [] = s_id
  schema_fields s_id (field_name ∷ rest) = schema_fields (schema_field s_id field_name) rest

-- The argument of `schema_id`: an ID, None, or the names of the fields in order.
pub data Schema : Type 0 where
  known : ℤ → Schema
  absent : Schema
  fields : List Text → Schema

unfoldable pub schema_id : (Text → Text) → Schema → ℤ
unfolding schema_fields
schema_id lower (known n) = n
schema_id lower absent = pos 0
schema_id lower (fields []) = pos 0
schema_id lower (fields (f ∷ rest)) = schema_fields lower (pos fnv1_offset_basis) (f ∷ rest)

unfoldable pub datetime_hashcode : ℤ → ℕ
datetime_hashcode value = bit_xor (and_mask value long_mask) (unsigned 64 value / 2 ^ 32)

-- What every API call returns: a status, and a value or a message.
pub record ApiResult {ℓ} (M : Type 0) (A : Type ℓ) : Type ℓ where
  pub status : ℤ
  pub message : M
  pub value : A

unfoldable pub status_to_exception {ℓ} : {M : Type 0} {A : Type ℓ} → ApiResult M A → Outcome M A
status_to_exception r = elim r.status [ pos zero ↦ ok r.value | _ ↦ raised r.message ]

-- `str.upper` is Python's.
unfoldable pub capitalize : (Text → Text) → Text → Text
capitalize upper string = upper (take 1 string) ++ drop 1 string

-- `name.split(delimiter)` for a delimiter of one character
unfoldable pub split : ℕ → Text → Text → List Text
split delimiter part [] = part ∷ []
split delimiter part (c ∷ rest) =
    let next = split delimiter [] rest in
    let longer = split delimiter (part ++ (c ∷ [])) rest in
    if c == delimiter then part ∷ next else longer

unfoldable pub capitalize_all : (Text → Text) → List Text → Text
unfolding capitalize
capitalize_all upper [] = []
capitalize_all upper (x ∷ xs) = capitalize upper x ++ capitalize_all upper xs

unfoldable pub process_delimiter : (Text → Text) → Text → ℕ → Text
unfolding split capitalize_all
process_delimiter upper text delimiter = capitalize_all upper (split delimiter [] text)
