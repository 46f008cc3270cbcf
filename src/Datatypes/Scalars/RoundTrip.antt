-- ===== src/Datatypes/Scalars/RoundTrip.antt =====
-- Data objects that hold no other, as they are read back: those of which the format keeps the whole
-- value, and two that it does not keep.
use python_thin_client.Prelude.{
  ℕ, zero, ◌-◌, ◌^◌, ◌≤◌, ◌<◌, ◌≡◌, refl, ap, sym, ◌∙◌, ◌+◌, length-replicate, Bool, true, false,
  List, [], ◌∷◌, ◌++◌, length, All, arith, ◌⊎◌, replicate, length-append, suc,
}
use python_thin_client.Prelude.Int.{ℤ, negsuc}
use python_thin_client.Prelude.Numbers.{to_signed}
use python_thin_client.Prelude.Outcome.{ok, raised}
use python_thin_client.Datatypes.Wire.{overflow_error, Stream, to_bytes, field-to_bytes, raw-append}
use python_thin_client.Datatypes.Scalars.{c_string}
use python_thin_client.Datatypes.Scalars.{
  Scalar, number, real, char, bool, string, uuid, date, time, timestamp, enumerator, decimal,
  byte_array, number_array, real_array, char_array, bool_array, RealKind, real_size, put_int,
  get_int, pack_nat, write_scalar, with_code, char_field,
}
use python_thin_client.Datatypes.Scalars.Parse.{read_char, read_scalar, char_unit, chars, strings}
use python_thin_client.Datatypes.Times.{
  IsPoint, IsSpan, point_millis, span_millis, point-Survives, span-Survives,
}
use python_thin_client.Datatypes.Scalars.Laws.{get_int-put_int}
use python_thin_client.Datatypes.Scalars.Objects.{
  Holds, RoundTrips, IsReal, round_trip_number, round_trip_timestamp, round_trip_enum,
  round_trip_string, round_trip_byte_array, round_trip_uuid, round_trip_decimal, counted,
}
use python_thin_client.Datatypes.Scalars.Arrays.{
  read_char_lem, read_bool_byte, pack_char-plain, round_trip_chars, round_trip_bools,
  round_trip_reals, round_trip_numbers,
}

round_trip_real : (k : RealKind) (v : ℕ) → IsReal k v → RoundTrips (real k v)
unfolding write_scalar read_scalar
round_trip_real k v h =
    (to_bytes (real_size k) v, refl, λ rest. rw (field-to_bytes (real_size k) v rest h))

round_trip_char : (unit : ℕ) → unit < 2 ^ 15 → RoundTrips (char unit)
unfolding write_scalar read_scalar
round_trip_char unit h =
    let (body, wrote, back) = read_char_lem unit h in (body, rw wrote, λ rest. rw (back rest))

round_trip_bool : (b : Bool) → RoundTrips (bool b)
unfolding write_scalar read_scalar
round_trip_bool true = (1 ∷ [], refl, λ rest. rw (read_bool_byte 1 rest (omega arith)) refl)
round_trip_bool false = (0 ∷ [], refl, λ rest. rw (read_bool_byte 0 rest (omega arith)) refl)

round_trip_date : (value : ℤ) → IsPoint value → RoundTrips (date value)
unfolding write_scalar read_scalar
round_trip_date value h =
    let (fit, back) = point-Survives value h in
    (
      put_int 8 (point_millis value),
      refl,
      λ rest. rw (get_int-put_int 8 (point_millis value) rest (omega arith) fit, back),
    )

round_trip_time : (value : ℤ) → IsSpan value → RoundTrips (time value)
unfolding write_scalar read_scalar
round_trip_time value h =
    let (fit, back) = span-Survives value h in
    (
      put_int 8 (span_millis value),
      refl,
      λ rest. rw (get_int-put_int 8 (span_millis value) rest (omega arith) fit, back),
    )

-- What is written of an object reads back before anything that follows, and then the position is
-- behind the object: for numbers within their width, characters below U+8000, texts without the code
-- point 0, whole seconds, and decimals of at most 28 digits that end in no zero, with lengths that a
-- signed counter holds.
pub write_scalar-read_scalar : (v : Scalar) → Holds v → RoundTrips v
write_scalar-read_scalar (number k v) h = round_trip_number k v h
write_scalar-read_scalar (real k v) h = round_trip_real k v h
write_scalar-read_scalar (char unit) h = round_trip_char unit h
write_scalar-read_scalar (bool b) h = round_trip_bool b
write_scalar-read_scalar (string octets) h = round_trip_string octets h.0 h.1
write_scalar-read_scalar (uuid octets) h = round_trip_uuid octets h
write_scalar-read_scalar (date epoch) h = round_trip_date epoch h
write_scalar-read_scalar (time value) h = round_trip_time value h
write_scalar-read_scalar (timestamp epoch fraction) h = round_trip_timestamp epoch fraction h.0 h.1
write_scalar-read_scalar (enumerator k type_id ordinal) h =
    round_trip_enum k type_id ordinal h.0 h.1
write_scalar-read_scalar (decimal sign integer scale) h =
    round_trip_decimal sign integer scale h.0 h.1
write_scalar-read_scalar (byte_array octets) h = round_trip_byte_array octets h
write_scalar-read_scalar (number_array k vs) h = round_trip_numbers k vs h.0 h.1 h.2
write_scalar-read_scalar (real_array k vs) h = round_trip_reals k vs h.0 h.1
write_scalar-read_scalar (char_array units) h = round_trip_chars units h.0 h.1
write_scalar-read_scalar (bool_array bs) h = round_trip_bools bs h

-- A character from U+8000 to U+FFFF that is no surrogate is written, and reading it raises.
pub write_char_unreadable :
    (unit : ℕ) (rest : Stream)
    → 2 ^ 15 ≤ unit
    → unit < 2 ^ 16
    → (unit < 0xd800) ⊎ (0xe000 ≤ unit)
    → (write_scalar (char unit) ≡ ok (0x07 ∷ to_bytes 2 unit))
      × (read_scalar chars (to_bytes 2 unit ++ rest) ≡ raised overflow_error)
unfolding write_scalar read_scalar pack_nat with_code read_char get_int char_unit
write_char_unreadable unit rest low high plain =
    (rw (pack_char-plain unit high plain), rw (field-to_bytes 2 unit rest (omega arith), negative))
  where
    negative : to_signed 16 unit ≡ negsuc (2 ^ 16 - 1 - unit)
    negative = unfold to_signed in ground arith

c_string_cut : (bs more : List ℕ) → All (λ b. 0 < b) bs → c_string (bs ++ (0 ∷ more)) ≡ bs
unfolding c_string
c_string_cut [] more h = refl
c_string_cut (zero ∷ bs) more h = absurd (omega arith)
c_string_cut (suc b ∷ bs) more h = ap (λ t. suc b ∷ t) (c_string_cut bs more h.1)

text_size :
    (before : List ℕ) (n : ℕ) → length before + suc n ≡ length (before ++ replicate (suc n) 0)
text_size before n =
    sym (
      length-append before (replicate (suc n) 0)
      ∙ omega (arith, length-replicate {A = ℕ} (suc n) 0))

char_field-cut :
    (before after : List ℕ)
    → All (λ b. 0 < b) before
    → char_field (before ++ (0 ∷ after)) ≡ before ++ replicate (suc (length after)) 0
unfolding char_field
char_field-cut before after plain =
    rw (c_string_cut before after plain, length-append before (0 ∷ after))
      (ap (λ n. before ++ replicate n 0) (left_over (length before) (length after)))
  where
    left_over : (m n : ℕ) → m + suc n - m ≡ suc n
    left_over m n = omega arith

-- The bytes behind the type code of a text that is cut.
abbrev pub cut_text : List ℕ → List ℕ → List ℕ
cut_text before after =
    to_bytes 4 (length (before ++ (0 ∷ after))) ++ (before ++ replicate (suc (length after)) 0)

-- Of a text only what stands before the first code point 0 is written, with zeros up to the length of
-- the whole text, and that part is read.
pub string_truncated :
    (before after : List ℕ)
    → All (λ b. 0 < b) before
    → length (before ++ (0 ∷ after)) < 2 ^ 31
    → (write_scalar (string (before ++ (0 ∷ after))) ≡ ok (0x09 ∷ cut_text before after))
      × ((rest : Stream)
          → read_scalar strings (cut_text before after ++ rest) ≡ ok (string before, rest))
unfolding write_scalar read_scalar
string_truncated before after plain small =
    let stored = before ++ replicate (suc (length after)) 0 in
    let size : length (before ++ (0 ∷ after)) ≡ length stored =
      length-append before (0 ∷ after) ∙ text_size before (length after) in
    (
      rw (char_field-cut before after plain) refl,
      λ rest.
          rw
            (
              size,
              counted stored rest (rw size at small),
              raw-append stored rest,
              c_string_cut before (replicate (length after) 0) plain,
            )
            refl,
    )
