-- ===== src/Datatypes/Scalars/Parse.antt =====
-- `parse_not_null` and `to_python_not_null` of the classes for data objects that hold no other.
use python_thin_client.Prelude.{ℕ, zero, suc, Bool, not, ◌&&◌, List, [], ◌∷◌, ◌==◌, bit_and, map}
use python_thin_client.Prelude.Int.{ℤ, pos, negsuc}
use python_thin_client.Prelude.Outcome.{ok, raised, ◌>>=◌}
use python_thin_client.Datatypes.Wire.{
  Stream, Result, overflow_error, index_error, from_bytes, raw, field,
}
use python_thin_client.Datatypes.Scalars.{
  Scalar, number, real, char, bool, string, uuid, date, time, timestamp, enumerator, decimal,
  byte_array, number_array, real_array, char_array, bool_array, IntKind, RealKind, EnumKind,
  int_size, real_size, get_int, uuid_byte_order, at, c_string,
}
use mathlib.Core.List.{reverse}
use python_thin_client.Datatypes.Context.{scaled}
use python_thin_client.Datatypes.Times.{span_of, point_of}

-- A loop that reads n elements.
unfoldable pub read_n {ℓ} :
    {A : Type ℓ} → (Stream → Result (A × Stream)) → ℕ → Stream → Result (List A × Stream)
read_n read zero s = ok ([], s)
read_n read (suc n) s = do (x, s1) ← read s; (xs, s2) ← read_n read n s1; ok (x ∷ xs, s2)

-- the counter of an array, and its elements
unfoldable pub read_array {ℓ} :
    {A : Type ℓ} → (Stream → Result (A × Stream)) → Stream → Result (List A × Stream)
unfolding read_n
read_array read s = do (n, s1) ← field 4 s; read_n read n s1

-- `value.to_bytes(2, 'little')` of the signed short: a negative number is refused.
unfoldable pub char_unit : ℤ → Result ℕ
char_unit (pos a) = ok a
char_unit (negsuc a) = raised overflow_error

unfoldable pub read_char : Stream → Result (ℕ × Stream)
unfolding char_unit
read_char s = do (v, rest) ← get_int 2 s; unit ← char_unit v; ok (unit, rest)

unfoldable pub read_bool : Stream → Result (Bool × Stream)
read_bool s = do (v, rest) ← field 1 s; ok (not (v == 0), rest)

-- The sign bit is in the first byte of the magnitude; minus zero is zero.
unfoldable pub decimal_value : List ℕ → ℤ → Result Scalar
unfolding scaled
decimal_value [] scale = raised index_error
decimal_value (b ∷ bs) scale = do
  (c, s) ← scaled (from_bytes (reverse (bit_and b 0x7f ∷ bs))) scale
  ok (decimal (not (bit_and b 0x80 == 0) && not (c == 0)) c s)

-- Each reads what follows the type code.
unfoldable pub read_number : IntKind → Stream → Result (Scalar × Stream)
unfolding get_int
read_number k s = do (v, rest) ← get_int (int_size k) s; ok (number k v, rest)

unfoldable pub read_real : RealKind → Stream → Result (Scalar × Stream)
read_real k s = do (v, rest) ← field (real_size k) s; ok (real k v, rest)

unfoldable pub read_string : Stream → Result (Scalar × Stream)
unfolding c_string
read_string s = do (n, s1) ← field 4 s; (octets, s2) ← raw n s1; ok (string (c_string octets), s2)

unfoldable pub read_uuid : Stream → Result (Scalar × Stream)
read_uuid s = do (value, rest) ← raw 16 s; ok (uuid (map (at value) uuid_byte_order), rest)

unfoldable pub read_date : Stream → Result (Scalar × Stream)
unfolding get_int point_of
read_date s = do (epoch, rest) ← get_int 8 s; value ← point_of epoch; ok (date value, rest)

unfoldable pub read_time : Stream → Result (Scalar × Stream)
unfolding get_int span_of
read_time s = do (millis, rest) ← get_int 8 s; value ← span_of millis; ok (time value, rest)

unfoldable pub read_timestamp : Stream → Result (Scalar × Stream)
unfolding get_int point_of
read_timestamp s = do
  (epoch, s1) ← get_int 8 s
  (fraction, s2) ← get_int 4 s1
  value ← point_of epoch
  ok (timestamp value fraction, s2)

unfoldable pub read_enum : EnumKind → Stream → Result (Scalar × Stream)
unfolding get_int
read_enum k s = do
  (type_id, s1) ← get_int 4 s
  (ordinal, s2) ← get_int 4 s1
  ok (enumerator k type_id ordinal, s2)

unfoldable pub read_decimal : Stream → Result (Scalar × Stream)
unfolding get_int decimal_value
read_decimal s = do
  (scale, s1) ← get_int 4 s
  (n, s2) ← field 4 s1
  (data_bytes, s3) ← raw n s2
  v ← decimal_value data_bytes scale
  ok (v, s3)

unfoldable pub read_byte_array : Stream → Result (Scalar × Stream)
read_byte_array s = do (n, s1) ← field 4 s; (octets, s2) ← raw n s1; ok (byte_array octets, s2)

unfoldable pub read_number_array : IntKind → Stream → Result (Scalar × Stream)
unfolding get_int read_array
read_number_array k s = do
  (vs, rest) ← read_array (get_int (int_size k)) s
  ok (number_array k vs, rest)

unfoldable pub read_real_array : RealKind → Stream → Result (Scalar × Stream)
unfolding read_array
read_real_array k s = do (vs, rest) ← read_array (field (real_size k)) s; ok (real_array k vs, rest)

unfoldable pub read_char_array : Stream → Result (Scalar × Stream)
unfolding read_array read_char
read_char_array s = do (units, rest) ← read_array read_char s; ok (char_array units, rest)

unfoldable pub read_bool_array : Stream → Result (Scalar × Stream)
unfolding read_array read_bool
read_bool_array s = do (bs, rest) ← read_array read_bool s; ok (bool_array bs, rest)

-- The classes of these objects.
pub data ScalarClass : Type 0 where
  numbers : IntKind → ScalarClass
  reals : RealKind → ScalarClass
  chars bools strings uuids dates times timestamps : ScalarClass
  enums : EnumKind → ScalarClass
  decimals byte_arrays char_arrays bool_arrays : ScalarClass
  number_arrays : IntKind → ScalarClass
  real_arrays : RealKind → ScalarClass

unfoldable pub read_scalar : ScalarClass → Stream → Result (Scalar × Stream)
unfolding read_number read_real read_char read_bool read_string read_uuid read_date read_time
    read_timestamp read_enum read_decimal read_byte_array read_number_array read_real_array
    read_char_array read_bool_array
read_scalar (numbers k) s = read_number k s
read_scalar (reals k) s = read_real k s
read_scalar chars s = do (unit, rest) ← read_char s; ok (char unit, rest)
read_scalar bools s = do (b, rest) ← read_bool s; ok (bool b, rest)
read_scalar strings s = read_string s
read_scalar uuids s = read_uuid s
read_scalar dates s = read_date s
read_scalar times s = read_time s
read_scalar timestamps s = read_timestamp s
read_scalar (enums k) s = read_enum k s
read_scalar decimals s = read_decimal s
read_scalar byte_arrays s = read_byte_array s
read_scalar char_arrays s = read_char_array s
read_scalar bool_arrays s = read_bool_array s
read_scalar (number_arrays k) s = read_number_array k s
read_scalar (real_arrays k) s = read_real_array k s
