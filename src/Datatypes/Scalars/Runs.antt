-- ===== src/Datatypes/Scalars/Runs.antt =====
-- Runs of writing and reading data objects.
use python_thin_client.Prelude.{ℕ, ◌≡◌, refl, true, inr, List, [], ◌∷◌, ◌++◌, arith}
use python_thin_client.Prelude.Int.{pos, ◌-ℤ◌}
use python_thin_client.Prelude.Outcome.{ok, raised}
use python_thin_client.Prelude.Numbers.{unsigned}
use python_thin_client.Datatypes.Wire.{Stream, to_bytes, overflow_error}
use python_thin_client.Datatypes.Scalars.{decimal, char, string, decimal_length, write_scalar}
use python_thin_client.Datatypes.Context.{normalize}
use python_thin_client.Datatypes.Times.{span_millis}
use python_thin_client.Datatypes.Scalars.Parse.{read_scalar, chars, strings}
use python_thin_client.Datatypes.Scalars.Objects.{RoundTrips}
use python_thin_client.Datatypes.Scalars.RoundTrip.{
  write_scalar-read_scalar, write_char_unreadable, string_truncated,
}

-- -12345.67
write_decimal_run :
    write_scalar (decimal true 1234567 (pos 2))
    ≡ ok (0x1e ∷ 2 ∷ 0 ∷ 0 ∷ 0 ∷ 3 ∷ 0 ∷ 0 ∷ 0 ∷ 0x92 ∷ 0xd6 ∷ 0x87 ∷ [])
unfolding write_scalar to_bytes unsigned normalize ◌-ℤ◌
write_decimal_run = refl

round_trip_example : RoundTrips (decimal true 1234567 (pos 2))
unfolding decimal_length
round_trip_example =
    write_scalar-read_scalar (decimal true 1234567 (pos 2))
      (((omega arith, refl, omega arith), refl), omega arith)

unreadable_example :
    (write_scalar (char 0xffff) ≡ ok (0x07 ∷ to_bytes 2 0xffff))
    × (read_scalar chars (to_bytes 2 0xffff ++ (1 ∷ [])) ≡ raised overflow_error)
unreadable_example =
    write_char_unreadable 0xffff (1 ∷ []) (omega arith) (omega arith) (inr (omega arith))

abbrev stored_text : List ℕ
stored_text = to_bytes 4 3 ++ (97 ∷ 0 ∷ 0 ∷ [])

string_truncated_example :
    (write_scalar (string (97 ∷ 0 ∷ 98 ∷ [])) ≡ ok (0x09 ∷ stored_text))
    × ((rest : Stream) → read_scalar strings (stored_text ++ rest) ≡ ok (string (97 ∷ []), rest))
string_truncated_example = string_truncated (97 ∷ []) (98 ∷ []) (omega arith, tt) (omega arith)

-- 1.001 seconds are written as 1000 milliseconds.
lost_millisecond_run : span_millis (pos 1001000) ≡ pos 1000
unfolding span_millis
lost_millisecond_run = refl

-- 1.10 is written as 1.1.
normalized_run : normalize 110 (pos 2) ≡ ok (11, pos 1)
unfolding normalize ◌-ℤ◌
normalized_run = refl
