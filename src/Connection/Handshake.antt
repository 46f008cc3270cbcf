-- ===== src/Connection/Handshake.antt =====
-- `HandshakeRequest` of pygridgain/connection/handshake.py. A text is a list of code points, and an
-- empty one is falsy.
pub mod Framed
pub mod Length
pub mod Response
mod Runs
use python_thin_client.Prelude.{
  ℕ, zero, suc, ◌+◌, ◌-◌, ◌*◌, ◌/◌, ◌%◌, Bool, true, false, Option, none, some, List, [], ◌∷◌, ◌++◌,
  ltb, if◌then◌else◌, length, bit_or,
}
use python_thin_client.Prelude.Int.{ℤ, pos}
use python_thin_client.Prelude.Outcome.{Outcome, ok, raised, ◌>>=◌}
use python_thin_client.Datatypes.Wire.{Result, type_error}
use python_thin_client.Datatypes.Scalars.{string, byte_array, put_int, write_scalar}
use python_thin_client.Datatypes.Values.{
  Value, null, scalar, mapping, entry, end, Binaries, write_value,
}
use python_thin_client.Connection.Protocol.{
  ProtocolContext, feature_bytes, is_feature_flags_supported, is_user_attributes_supported,
}

abbrev pub Text : Type 0
Text = List ℕ

-- the UTF-8 bytes of a code point
unfoldable pub utf8_char : ℕ → List ℕ
utf8_char c =
    if ltb c 0x80
    then c ∷ []
    else if ltb c 0x800
    then (0xc0 + c / 64) ∷ (0x80 + c % 64) ∷ []
    else if ltb c 0x10000
    then (0xe0 + c / 4096) ∷ (0x80 + c / 64 % 64) ∷ (0x80 + c % 64) ∷ []
    else (0xf0 + c / 262144) ∷ (0x80 + c / 4096 % 64) ∷ (0x80 + c / 64 % 64) ∷ (0x80 + c % 64) ∷ []

-- text.encode('utf-8')
unfoldable pub utf8 : Text → List ℕ
unfolding utf8_char
utf8 [] = []
utf8 (c ∷ cs) = utf8_char c ++ utf8 cs

abbrev pub op_handshake : ℕ
op_handshake = 1

-- 'client.timezone'
abbrev pub user_attr_timezone : Text
user_attr_timezone =
    99 ∷ 108 ∷ 105 ∷ 101 ∷ 110 ∷ 116 ∷ 46 ∷ 116 ∷ 105 ∷ 109 ∷ 101 ∷ 122 ∷ 111 ∷ 110 ∷ 101 ∷ []

-- What the request says of the user: the name and the password, where both are given and not empty.
pub record HandshakeRequest : Type 0 where
  pub context : ProtocolContext
  pub credentials : Option (Text × Text)
  pub timezone : Option Text

unfoldable pub new_request : ProtocolContext → Text → Text → Option Text → HandshakeRequest
new_request c [] password timezone = record { context = c; credentials = none; timezone = timezone }
new_request c (u ∷ us) [] timezone = record { context = c; credentials = none; timezone = timezone }
new_request c (u ∷ us) (p ∷ ps) timezone = record {
  context = c;
  credentials = some (u ∷ us, p ∷ ps);
  timezone = timezone;
}

-- bytes(features), which raises for None
unfoldable pub features_of : ProtocolContext → Result (List ℕ)
features_of c = elim c.features [ some f ↦ ok (feature_bytes f) | none ↦ raised type_error ]

unfoldable pub tz_len : Option Text → ℕ
tz_len none = 1
tz_len (some []) = 1
tz_len (some (c ∷ cs)) = 5 + length (c ∷ cs)

unfoldable pub timezone_value : Option Text → Value
timezone_value none = null
timezone_value (some t) = scalar (string (utf8 t))

-- What the user's attributes are written with: no binary object is among them.
abbrev pub no_binaries : Binaries
no_binaries = record {
  lower = λ t. t;
  approach = none;
  same_key = λ a b. false;
  registry = λ type_id schema_id. none;
}

-- The parts of the request: what each adds to the length, and its bytes.
unfoldable pub features_part : ProtocolContext → Result (ℕ × List ℕ)
unfolding features_of
features_part c =
    if is_feature_flags_supported c
    then (features_of c >>= λ f. write_scalar (byte_array f) >>= λ bytes. ok (5 + length f, bytes))
    else ok (0, [])

unfoldable pub attributes_part : ProtocolContext → Option Text → Result (ℕ × List ℕ)
unfolding tz_len timezone_value
attributes_part c timezone =
    if is_user_attributes_supported c
    then (write_value no_binaries (
          mapping (pos 1)
            (entry (scalar (string (utf8 user_attr_timezone))) (timezone_value timezone) end))
        >>= λ bytes. ok (6 + (5 + (length user_attr_timezone + tz_len timezone)), bytes))
    else ok (0, [])

unfoldable pub credentials_part : Option (Text × Text) → Result (ℕ × List ℕ)
credentials_part none = ok (0, [])
credentials_part (some (username, password)) = do
  name_bytes ← write_scalar (string (utf8 username))
  password_bytes ← write_scalar (string (utf8 password))
  ok (10 + (length username + length password), name_bytes ++ password_bytes)

-- `from_python`, with the length of `__create_handshake_data`
unfoldable pub write_handshake : HandshakeRequest → Result (List ℕ)
unfolding features_part attributes_part credentials_part put_int
write_handshake r = do
  (f, features) ← features_part r.context
  (a, attributes) ← attributes_part r.context r.timezone
  (n, credentials) ← credentials_part r.credentials
  let v = r.context.version
  ok (
      put_int 4 (pos (8 + (f + (a + n))))
      ++ ((op_handshake ∷ [])
          ++ (put_int 2 (pos v.0)
              ++ (put_int 2 (pos v.1)
                  ++ (put_int 2 (pos v.2)
                      ++ ((2 ∷ []) ++ (features ++ (attributes ++ credentials))))))))
