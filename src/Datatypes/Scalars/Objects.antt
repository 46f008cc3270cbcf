-- ===== src/Datatypes/Scalars/Objects.antt =====
-- Objects of one value, and what the format holds of each.
use python_thin_client.Prelude.{
  ℕ, zero, suc, ◌*◌, ◌^◌, ◌<◌, ◌≡◌, refl, ap, Bool, List, [], ◌∷◌, ◌++◌, length, All, arith,
  append_assoc, append-nil, lt→ltb, ◌≤◌, ◌∙◌, length-append, length-replicate, replicate, ◌-◌,
}
use python_thin_client.Prelude.Int.{ℤ, pos, negsuc}
use python_thin_client.Prelude.Outcome.{ok}
use python_thin_client.Datatypes.Wire.{Stream, to_bytes, field, field-to_bytes, raw-append}
use python_thin_client.Datatypes.Scalars.{c_string}
use python_thin_client.Datatypes.Scalars.{
  Scalar, number, real, char, bool, string, uuid, date, time, timestamp, enumerator, decimal,
  byte_array, number_array, real_array, char_array, bool_array, IntKind, byte, RealKind, EnumKind,
  int_size, real_size, put_int, int_code, real_code, enum_code, int_array_code, real_array_code,
  Fits, pack_nat, write_scalar, write_decimal, write_normal, with_code, char_field, decimal_length,
}
use python_thin_client.Datatypes.Scalars.Parse.{
  read_scalar, ScalarClass, numbers, reals, chars, bools, strings, uuids, dates, times, timestamps,
  enums, decimals, byte_arrays, char_arrays, bool_arrays, number_arrays, real_arrays,
}
use python_thin_client.Datatypes.Scalars.Laws.{get_int-put_int}
use python_thin_client.Datatypes.Scalars.Decimals.{decimal_bytes, IsDecimal}
use python_thin_client.Datatypes.Context.{IsNormal, normalize-IsNormal}
use python_thin_client.Datatypes.Times.{IsSpan, IsPoint, point_millis, point-Survives}

-- The class that writes a value.
abbrev pub class_of : Scalar → ScalarClass
class_of (number k v) = numbers k
class_of (real k v) = reals k
class_of (char unit) = chars
class_of (bool b) = bools
class_of (string octets) = strings
class_of (uuid octets) = uuids
class_of (date epoch) = dates
class_of (time value) = times
class_of (timestamp epoch fraction) = timestamps
class_of (enumerator k type_id ordinal) = enums k
class_of (decimal sign integer scale) = decimals
class_of (byte_array octets) = byte_arrays
class_of (number_array k vs) = number_arrays k
class_of (real_array k vs) = real_arrays k
class_of (char_array units) = char_arrays
class_of (bool_array bs) = bool_arrays

-- its type code
abbrev pub code_of : ScalarClass → ℕ
code_of (numbers k) = int_code k
code_of (reals k) = real_code k
code_of chars = 0x07
code_of bools = 0x08
code_of strings = 0x09
code_of uuids = 0x0a
code_of dates = 0x0b
code_of times = 0x24
code_of timestamps = 0x21
code_of (enums k) = enum_code k
code_of decimals = 0x1e
code_of byte_arrays = 0x0c
code_of (number_arrays k) = int_array_code k
code_of (real_arrays k) = real_array_code k
code_of char_arrays = 0x12
code_of bool_arrays = 0x13

abbrev pub IsReal : RealKind → ℕ → Type 0
IsReal k v = v < 256 ^ real_size k

abbrev pub IsWide : IntKind → Type 0
IsWide byte = ⊥
IsWide k = Unit {0}

-- The values that come back: numbers within their width, characters below U+8000, texts without the
-- code point 0, UUIDs of 16 bytes, whole seconds, decimals of at most 28 digits without zeros at the end,
-- and lengths that a signed counter holds.
abbrev pub Holds : Scalar → Type 0
Holds (number k v) = Fits (8 * int_size k) v
Holds (real k v) = IsReal k v
Holds (char unit) = unit < 2 ^ 15
Holds (bool b) = Unit {0}
Holds (string octets) = (length octets < 2 ^ 31) × All (λ b. 0 < b) octets
Holds (uuid octets) = length octets ≡ 16
Holds (date value) = IsPoint value
Holds (time value) = IsSpan value
Holds (timestamp value fraction) = IsPoint value × Fits 32 fraction
Holds (enumerator k type_id ordinal) = Fits 32 type_id × Fits 32 ordinal
Holds (decimal sign integer scale) =
    IsDecimal sign integer scale × (decimal_length integer < 2 ^ 31)
Holds (byte_array octets) = length octets < 2 ^ 31
Holds (number_array k vs) = IsWide k × (length vs < 2 ^ 31) × All (Fits (8 * int_size k)) vs
Holds (real_array k vs) = (length vs < 2 ^ 31) × All (IsReal k) vs
Holds (char_array units) = (length units < 2 ^ 31) × All (λ u. u < 2 ^ 15) units
Holds (bool_array bs) = length bs < 2 ^ 31

pub c_string_whole : (bs : List ℕ) → All (λ b. 0 < b) bs → c_string bs ≡ bs
unfolding c_string
c_string_whole [] h = refl
c_string_whole (zero ∷ bs) h = absurd (omega arith)
c_string_whole (suc b ∷ bs) h = ap (λ t. suc b ∷ t) (c_string_whole bs h.1)

pub char_field-whole : (bs : List ℕ) → All (λ b. 0 < b) bs → char_field bs ≡ bs
unfolding char_field
char_field-whole bs h = rw (c_string_whole bs h, minus_self (length bs)) (append-nil bs)
  where
    minus_self : (n : ℕ) → n - n ≡ 0
    minus_self n = omega arith

c_string-le : (bs : List ℕ) → length (c_string bs) ≤ length bs
unfolding c_string
c_string-le [] = omega arith
c_string-le (zero ∷ bs) = omega arith
c_string-le (suc b ∷ bs) = omega (arith, c_string-le bs)

pub length-char_field : (bs : List ℕ) → length (char_field bs) ≡ length bs
unfolding char_field
length-char_field bs =
    length-append (c_string bs) (replicate (length bs - length (c_string bs)) 0)
    ∙ omega (arith, c_string-le bs, length-replicate {A = ℕ} (length bs - length (c_string bs)) 0)

-- What is written of `v`, and that it reads back before anything else that follows.
abbrev pub RoundTrips : Scalar → Type 0
RoundTrips v =
    (body : List ℕ) × (write_scalar v ≡ ok (code_of (class_of v) ∷ body))
    × ((rest : Stream) → read_scalar (class_of v) (body ++ rest) ≡ ok (v, rest))

pub round_trip_number : (k : IntKind) (v : ℤ) → Fits (8 * int_size k) v → RoundTrips (number k v)
unfolding write_scalar read_scalar
round_trip_number k v h =
    (put_int (int_size k) v, refl, λ rest. rw (get_int-put_int (int_size k) v rest (size_pos k) h))
  where
    size_pos : (j : IntKind) → 0 < int_size j
    size_pos byte = omega arith
    size_pos _ = omega arith

pub round_trip_timestamp : (v f : ℤ) → IsPoint v → Fits 32 f → RoundTrips (timestamp v f)
unfolding write_scalar read_scalar
round_trip_timestamp v f hv hf =
    let (fit, back) = point-Survives v hv in
    (
      put_int 8 (point_millis v) ++ put_int 4 f,
      refl,
      λ rest. rw (
        append_assoc,
        get_int-put_int 8 (point_millis v) (put_int 4 f ++ rest) (omega arith) fit,
        get_int-put_int 4 f rest (omega arith) hf,
        back,
      ),
    )

pub round_trip_enum :
    (k : EnumKind) (t o : ℤ) → Fits 32 t → Fits 32 o → RoundTrips (enumerator k t o)
unfolding write_scalar read_scalar
round_trip_enum k t o ht ho = (
  put_int 4 t ++ put_int 4 o,
  refl,
  λ rest. rw (
    append_assoc,
    get_int-put_int 4 t (put_int 4 o ++ rest) (omega arith) ht,
    get_int-put_int 4 o rest (omega arith) ho,
  ),
)

IsNormal-Fits : (c : ℕ) (s : ℤ) → IsNormal c s → Fits 32 s
IsNormal-Fits zero s h = rw h (omega arith)
IsNormal-Fits (suc n) (pos s) (small, last, near) = omega (arith, near)
IsNormal-Fits (suc n) (negsuc s) (small, last, near) = omega (arith, near)

-- A counter and that many bytes.
pub counted :
    (octets rest : List ℕ)
    → length octets < 2 ^ 31
    → field 4 ((to_bytes 4 (length octets) ++ octets) ++ rest) ≡ ok (length octets, octets ++ rest)
counted octets rest h =
    rw append_assoc (field-to_bytes 4 (length octets) (octets ++ rest) (omega arith))

pub round_trip_string :
    (octets : List ℕ)
    → length octets < 2 ^ 31
    → All (λ b. 0 < b) octets
    → RoundTrips (string octets)
unfolding write_scalar read_scalar
round_trip_string octets small plain = (
  to_bytes 4 (length octets) ++ octets,
  rw (char_field-whole octets plain) refl,
  λ rest. rw (counted octets rest small, raw-append octets rest, c_string_whole octets plain),
)

pub round_trip_byte_array :
    (octets : List ℕ) → length octets < 2 ^ 31 → RoundTrips (byte_array octets)
unfolding write_scalar read_scalar pack_nat
round_trip_byte_array octets small = (
  to_bytes 4 (length octets) ++ octets,
  rw (lt→ltb (length octets) (256 ^ 4) (omega arith)),
  λ rest. rw (counted octets rest small, raw-append octets rest),
)

pub round_trip_uuid : (octets : List ℕ) → length octets ≡ 16 → RoundTrips (uuid octets)
unfolding write_scalar read_scalar
round_trip_uuid
      (b0 ∷ b1 ∷ b2 ∷ b3 ∷ b4 ∷ b5 ∷ b6 ∷ b7 ∷ b8 ∷ b9 ∷ b10 ∷ b11 ∷ b12 ∷ b13 ∷ b14 ∷ b15 ∷ []) h =
    let stored : List ℕ =
      b7 ∷ b6 ∷ b5 ∷ b4 ∷ b3 ∷ b2 ∷ b1 ∷ b0 ∷ b15 ∷ b14 ∷ b13 ∷ b12 ∷ b11 ∷ b10 ∷ b9 ∷ b8 ∷ [] in
    (stored, refl, λ rest. rw (raw-append stored rest))
round_trip_uuid _ h = absurd (omega arith)

pub round_trip_decimal :
    (sign : Bool) (integer : ℕ) (scale : ℤ)
    → IsDecimal sign integer scale
    → decimal_length integer < 2 ^ 31
    → RoundTrips (decimal sign integer scale)
unfolding write_scalar read_scalar write_normal with_code write_decimal
round_trip_decimal sign integer scale normal small =
    let (magnitude, written, size, back) = decimal_bytes sign integer scale normal in
    let n = decimal_length integer in
    (
      put_int 4 scale ++ (to_bytes 4 n ++ magnitude),
      rw (normalize-IsNormal integer scale normal.0, written) refl,
      λ rest. rw (
        append_assoc,
        get_int-put_int 4 scale ((to_bytes 4 n ++ magnitude) ++ rest) (omega arith)
            (IsNormal-Fits integer scale normal.0),
        append_assoc,
        field-to_bytes 4 n (magnitude ++ rest) (omega arith),
        ← size,
        raw-append magnitude rest,
        back,
      ),
    )
