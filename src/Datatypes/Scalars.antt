-- ===== src/Datatypes/Scalars.antt =====
-- The data objects that hold no other object: pygridgain/datatypes/primitive_objects.py,
-- primitive_arrays.py and standard.py. Parsing builds a ctypes structure whose fields are then read
-- back from the same bytes, so that here the two are one step: the bytes of each field, in order.
-- A stream that ends inside an object makes `read_ctype` raise, which is `buffer_too_small`.
pub mod Parse
pub mod Laws
pub mod Decimals
pub mod Objects
pub mod Arrays
pub mod RoundTrip
mod Runs
use python_thin_client.Prelude.{
  ℕ, zero, suc, ◌+◌, ◌-◌, ◌*◌, ◌/◌, ◌%◌, ◌^◌, ◌≤◌, ◌<◌, Bool, true, false, not, List, [], ◌∷◌, ◌++◌,
  ltb, leb, ◌==◌, if◌then◌else◌, length, take, drop, set, replicate, get_elem?, Option, none, some,
  bit_and, bit_or, map, ◌&&◌,
}
use python_thin_client.Prelude.Int.{ℤ, pos, negsuc}
use python_thin_client.Prelude.Numbers.{unsigned, to_signed}
use python_thin_client.Prelude.Outcome.{Outcome, ok, raised, ◌>>=◌}
use python_thin_client.Datatypes.Context.{normalize}
use python_thin_client.Datatypes.Times.{span_millis, point_millis}
use python_thin_client.Datatypes.Wire.{
  Stream, CodecError, Result, parse_error, buffer_too_small, overflow_error, struct_error,
  value_error, index_error, to_bytes, from_bytes, raw, field,
}
use mathlib.Core.List.{reverse}
pub use python_thin_client.Datatypes.Wire.{Fits}

pub data IntKind : Type 0 where
  byte short int long : IntKind

pub data RealKind : Type 0 where
  float double : RealKind

-- `EnumObject` and `BinaryEnumObject`
pub data EnumKind : Type 0 where
  enum binary_enum : EnumKind

-- A text is its UTF-8 bytes, a character its code point, a float its bit pattern, a point or a span of
-- time its number of microseconds. A decimal is its sign, its digits as a number, and its number of
-- decimal places.
pub data Scalar : Type 0 where
  number : IntKind → ℤ → Scalar
  real : RealKind → ℕ → Scalar
  char : ℕ → Scalar
  bool : Bool → Scalar
  string : List ℕ → Scalar
  uuid : List ℕ → Scalar
  date : ℤ → Scalar
  time : ℤ → Scalar
  timestamp : ℤ → ℤ → Scalar
  enumerator : EnumKind → ℤ → ℤ → Scalar
  decimal : Bool → ℕ → ℤ → Scalar
  byte_array : List ℕ → Scalar
  number_array : IntKind → List ℤ → Scalar
  real_array : RealKind → List ℕ → Scalar
  char_array : List ℕ → Scalar
  bool_array : List Bool → Scalar

abbrev pub int_size : IntKind → ℕ
int_size byte = 1
int_size short = 2
int_size int = 4
int_size long = 8

abbrev pub real_size : RealKind → ℕ
real_size float = 4
real_size double = 8

abbrev pub int_code : IntKind → ℕ
int_code byte = 0x01
int_code short = 0x02
int_code int = 0x03
int_code long = 0x04

abbrev pub real_code : RealKind → ℕ
real_code float = 0x05
real_code double = 0x06

abbrev pub enum_code : EnumKind → ℕ
enum_code enum = 0x1c
enum_code binary_enum = 0x26

abbrev pub int_array_code : IntKind → ℕ
int_array_code byte = 0x0c
int_array_code short = 0x0d
int_array_code int = 0x0e
int_array_code long = 0x0f

abbrev pub real_array_code : RealKind → ℕ
real_array_code float = 0x10
real_array_code double = 0x11

-- A signed field of n bytes: ctypes drops the bits that do not fit.
unfoldable pub put_int : ℕ → ℤ → List ℕ
put_int n v = to_bytes n (unsigned (8 * n) v)

unfoldable pub get_int : ℕ → Stream → Result (ℤ × Stream)
get_int n s = do (u, rest) ← field n s; ok (to_signed (8 * n) u, rest)

unfoldable pub fits : ℕ → ℤ → Bool
fits w (pos a) = ltb (2 * a) (2 ^ w)
fits w (negsuc a) = ltb (2 * a) (2 ^ w)

-- `from_python` of `Byte`, `Short`, `Int` and `Long`: `struct.pack` refuses what does not fit.
unfoldable pub pack_int : ℕ → ℤ → Result (List ℕ)
unfolding put_int fits
pack_int n v = if fits (8 * n) v then ok (put_int n v) else raised struct_error

-- v.to_bytes(n, 'little', signed=True)
unfoldable pub pack_signed : ℕ → ℤ → Result (List ℕ)
unfolding fits put_int
pack_signed n v = if fits (8 * n) v then ok (put_int n v) else raised overflow_error

-- The elements of a sequence of integers that is written as an array of bytes: from -128 to 255.
unfoldable pub pack_octet : ℤ → Result (List ℕ)
pack_octet (pos a) = if leb a 255 then ok (a ∷ []) else raised value_error
pack_octet (negsuc a) = if leb a 127 then ok ((255 - a) ∷ []) else raised value_error

-- v.to_bytes(n, 'little')
unfoldable pub pack_nat : ℕ → ℕ → Result (List ℕ)
pack_nat n v = if ltb v (256 ^ n) then ok (to_bytes n v) else raised overflow_error

-- A character in UTF-16, which has no surrogates; one above U+FFFF takes more than its two bytes.
unfoldable pub pack_char : ℕ → Result (List ℕ)
unfolding pack_nat
pack_char c = if leb 0xd800 c && ltb c 0xe000 then raised value_error else pack_nat 2 c

-- A field of type `c_char * n` reads as the bytes before its first zero.
unfoldable pub c_string : List ℕ → List ℕ
c_string [] = []
c_string (zero ∷ bs) = []
c_string (suc b ∷ bs) = suc b ∷ c_string bs

-- Assigned to, the field takes the bytes before the first zero; the others stay zero.
unfoldable pub char_field : List ℕ → List ℕ
unfolding c_string
char_field octets = let text = c_string octets in text ++ replicate (length octets - length text) 0

unfoldable pub write_all {ℓ} : {A : Type ℓ} → (A → Result (List ℕ)) → List A → Result (List ℕ)
write_all write [] = ok []
write_all write (x ∷ xs) = do head ← write x; tail ← write_all write xs; ok (head ++ tail)

-- the counter of an array, and its elements
unfoldable pub write_array {ℓ} : {A : Type ℓ} → (A → Result (List ℕ)) → List A → Result (List ℕ)
unfolding write_all pack_nat
write_array write xs = do
  header ← pack_nat 4 (length xs)
  body ← write_all write xs
  ok (header ++ body)

unfoldable pub pack_real : RealKind → ℕ → Result (List ℕ)
pack_real k v = ok (to_bytes (real_size k) v)

unfoldable pub pack_bool : Bool → Result (List ℕ)
pack_bool true = ok (1 ∷ [])
pack_bool false = ok (0 ∷ [])

-- `UUID_BYTE_ORDER`
abbrev pub uuid_byte_order : List ℕ
uuid_byte_order = 7 ∷ 6 ∷ 5 ∷ 4 ∷ 3 ∷ 2 ∷ 1 ∷ 0 ∷ 15 ∷ 14 ∷ 13 ∷ 12 ∷ 11 ∷ 10 ∷ 9 ∷ 8 ∷ []

-- for i, byte in zip(order, octets): value[i] = byte
unfoldable pub scatter : List ℕ → List ℕ → List ℕ → List ℕ
scatter [] octets value = value
scatter (i ∷ is) [] value = value
scatter (i ∷ is) (b ∷ bs) value = scatter is bs (set value i b)

abbrev pub at : List ℕ → ℕ → ℕ
at [] i = 0
at (x ∷ xs) zero = x
at (x ∷ xs) (suc i) = at xs i

-- The number of binary digits; as many rounds as the number is large are enough.
unfoldable pub bit_length : ℕ → ℕ → ℕ
bit_length zero v = 0
bit_length (suc fuel) v = let rest = bit_length fuel (v / 2) in if v == 0 then 0 else rest + 1

-- ceil((integer.bit_length() + 1) / 8)
unfoldable pub decimal_length : ℕ → ℕ
unfolding bit_length
decimal_length integer = (bit_length integer integer + 1 + 7) / 8

-- Highest byte first, the sign in its top bit.
unfoldable pub set_sign : Bool → List ℕ → List ℕ
set_sign sign [] = []
set_sign true (b ∷ bs) = bit_or b 0x80 ∷ bs
set_sign false (b ∷ bs) = bit_and b 0x7f ∷ bs

unfoldable pub write_decimal : Bool → ℕ → ℤ → List ℕ
unfolding decimal_length set_sign put_int
write_decimal sign integer scale =
    let n = decimal_length integer in
    put_int 4 scale ++ (to_bytes 4 n ++ set_sign sign (reverse (to_bytes n integer)))

-- `from_python_not_null` of `DecimalObject`
unfoldable pub write_normal : Bool → ℕ → ℤ → Result (List ℕ)
unfolding write_decimal normalize
write_normal sign integer scale = do (c, s) ← normalize integer scale; ok (write_decimal sign c s)

unfoldable pub with_code : ℕ → Result (List ℕ) → Result (List ℕ)
with_code code r = do body ← r; ok (code ∷ body)

-- `from_python_not_null` of the classes
unfoldable pub write_scalar : Scalar → Result (List ℕ)
unfolding put_int pack_nat pack_char pack_int pack_octet pack_real pack_bool write_array scatter
    write_normal char_field span_millis point_millis with_code
write_scalar (number k v) = ok (int_code k ∷ put_int (int_size k) v)
write_scalar (real k v) = ok (real_code k ∷ to_bytes (real_size k) v)
write_scalar (char unit) = with_code 0x07 (pack_char unit)
write_scalar (bool true) = ok (0x08 ∷ 1 ∷ [])
write_scalar (bool false) = ok (0x08 ∷ 0 ∷ [])
write_scalar (string octets) = ok (0x09 ∷ (to_bytes 4 (length octets) ++ char_field octets))
write_scalar (uuid octets) = ok (0x0a ∷ scatter uuid_byte_order octets (replicate 16 0))
write_scalar (date value) = ok (0x0b ∷ put_int 8 (point_millis value))
write_scalar (time value) = ok (0x24 ∷ put_int 8 (span_millis value))
write_scalar (timestamp value fraction) =
    ok (0x21 ∷ (put_int 8 (point_millis value) ++ put_int 4 fraction))
write_scalar (enumerator k type_id ordinal) =
    ok (enum_code k ∷ (put_int 4 type_id ++ put_int 4 ordinal))
write_scalar (decimal sign integer scale) = with_code 0x1e (write_normal sign integer scale)
write_scalar (byte_array octets) =
    with_code 0x0c (do header ← pack_nat 4 (length octets); ok (header ++ octets))
write_scalar (number_array byte vs) = with_code 0x0c (write_array pack_octet vs)
write_scalar (number_array k vs) =
    with_code (int_array_code k) (write_array (pack_int (int_size k)) vs)
write_scalar (real_array k vs) = with_code (real_array_code k) (write_array (pack_real k) vs)
write_scalar (char_array units) = with_code 0x12 (write_array pack_char units)
write_scalar (bool_array bs) = with_code 0x13 (write_array pack_bool bs)
