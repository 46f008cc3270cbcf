-- ===== src/Connection/Handshake/Length.antt =====
-- The length in front of a handshake request.
use python_thin_client.Prelude.{
  ℕ, suc, ◌+◌, ◌^◌, ◌<◌, ◌≡◌, ◌⊎◌, inl, inr, refl, ap, true, false, Option, none, some, List, [],
  ◌∷◌, ◌++◌, length, All, arith, length-append, Bool-cases, lt→ltb, if◌then◌else◌,
}
use python_thin_client.Prelude.Int.{pos}
use python_thin_client.Prelude.Outcome.{ok, raised}
use python_thin_client.Datatypes.Wire.{Result, type_error, to_bytes, length-to_bytes}
use python_thin_client.Datatypes.Scalars.{
  byte_array, put_int, write_scalar, char_field, pack_nat, pack_signed, fits, with_code,
}
use python_thin_client.Datatypes.Values.{write_value}
use python_thin_client.Datatypes.Scalars.Objects.{length-char_field}
use python_thin_client.Connection.Protocol.{
  ProtocolContext, feature_bytes, is_feature_flags_supported, is_user_attributes_supported,
}
use python_thin_client.Connection.Handshake.{
  Text, utf8_char, utf8, user_attr_timezone, HandshakeRequest, features_of, tz_len, timezone_value,
  features_part, attributes_part, credentials_part, write_handshake,
}

abbrev pub IsAscii : Text → Type 0
IsAscii t = All (λ c. c < 0x80) t

pub length-utf8 : (t : Text) → IsAscii t → length (utf8 t) ≡ length t
unfolding utf8 utf8_char
length-utf8 [] h = refl
length-utf8 (c ∷ cs) h = rw (lt→ltb c 0x80 h.0) (ap suc (length-utf8 cs h.1))

-- A counted sequence of bytes behind a type code.
abbrev counted : ℕ → List ℕ → List ℕ
counted code xs = code ∷ (to_bytes 4 (length xs) ++ xs)

length-counted : (code : ℕ) (xs : List ℕ) → length (counted code xs) ≡ 5 + length xs
length-counted code xs =
    omega (arith, length-append (to_bytes 4 (length xs)) xs, length-to_bytes 4 (length xs))

abbrev text_bytes : List ℕ → List ℕ
text_bytes xs = 0x09 ∷ (to_bytes 4 (length xs) ++ char_field xs)

length-text_bytes : (xs : List ℕ) → length (text_bytes xs) ≡ 5 + length xs
length-text_bytes xs = omega (
  arith,
  length-append (to_bytes 4 (length xs)) (char_field xs),
  length-to_bytes 4 (length xs),
  length-char_field xs,
)

write_bytes :
    (xs : List ℕ) → length xs < 2 ^ 31 → write_scalar (byte_array xs) ≡ ok (counted 0x0c xs)
unfolding write_scalar pack_nat with_code
write_bytes xs small = rw (lt→ltb (length xs) (256 ^ 4) (omega arith)) refl

-- A part of the request, whose bytes are more than it says by `more`, and fewer by `fewer`.
abbrev Part : Result (ℕ × List ℕ) → ℕ → ℕ → Type 0
Part r more fewer =
    (n : ℕ) × (bytes : List ℕ) × (r ≡ ok (n, bytes)) × (n + more ≡ length bytes + fewer)

-- The features are known, where the version has any.
abbrev pub FeaturesGiven : ProtocolContext → Type 0
FeaturesGiven c =
    (is_feature_flags_supported c ≡ false)
    ⊎ ((f : ℕ) × (c.features ≡ some f) × (length (feature_bytes f) < 2 ^ 31))

features_given :
    (c : ProtocolContext) (f : ℕ) → c.features ≡ some f → features_of c ≡ ok (feature_bytes f)
unfolding features_of
features_given c f given =
    ap (λ (o : Option ℕ). elim o [ some g ↦ ok (feature_bytes g) | none ↦ raised type_error ]) given

features_lem : (c : ProtocolContext) → FeaturesGiven c → Part (features_part c) 0 0
unfolding features_part
features_lem c (inl no_flags) = (0, [], rw no_flags refl, refl)
features_lem c (inr (f, given, small)) = elim (Bool-cases (is_feature_flags_supported c)) [
  | inr no_flags ↦ (0, [], rw no_flags refl, refl)
  | inl yes_flags ↦ (
    5 + length (feature_bytes f),
    counted 0x0c (feature_bytes f),
    rw (yes_flags, features_given c f given, write_bytes (feature_bytes f) small) refl,
    omega (arith, length-counted 0x0c (feature_bytes f)),
  )
]

-- The code points and the UTF-8 bytes of the user's name and password.
abbrev pub credential_chars : Option (Text × Text) → ℕ
credential_chars none = 0
credential_chars (some (u, p)) = length u + length p

abbrev pub credential_octets : Option (Text × Text) → ℕ
credential_octets none = 0
credential_octets (some (u, p)) = length (utf8 u) + length (utf8 p)

credentials_lem :
    (k : Option (Text × Text))
    → Part (credentials_part k) (credential_octets k) (credential_chars k)
unfolding credentials_part write_scalar
credentials_lem none = (0, [], refl, refl)
credentials_lem (some (u, p)) = (
  10 + (length u + length p),
  text_bytes (utf8 u) ++ text_bytes (utf8 p),
  refl,
  omega (
    arith,
    length-append (text_bytes (utf8 u)) (text_bytes (utf8 p)),
    length-text_bytes (utf8 u),
    length-text_bytes (utf8 p),
  ),
)

-- A time zone that is given is not empty.
abbrev pub ZoneGiven : Option Text → Type 0
ZoneGiven none = Unit {0}
ZoneGiven (some []) = ⊥
ZoneGiven (some (c ∷ cs)) = Unit {0}

abbrev pub zone_chars : Option Text → ℕ
zone_chars none = 0
zone_chars (some t) = length t

abbrev pub zone_octets : Option Text → ℕ
zone_octets none = 0
zone_octets (some t) = length (utf8 t)

abbrev attribute_bytes : List ℕ → List ℕ
attribute_bytes value =
    0x19
    ∷ (to_bytes 4 1
        ++ (put_int 1 (pos 1) ++ (text_bytes (utf8 user_attr_timezone) ++ (value ++ []))))

length-attribute_bytes : (value : List ℕ) → length (attribute_bytes value) ≡ 26 + length value
unfolding to_bytes put_int utf8 utf8_char char_field
length-attribute_bytes value = omega (arith, length-append value [])

attributes_lem :
    (c : ProtocolContext) (timezone : Option Text)
    → ZoneGiven timezone
    → is_user_attributes_supported c ≡ true
    → Part (attributes_part c timezone) (zone_octets timezone) (zone_chars timezone)
unfolding attributes_part timezone_value tz_len write_value write_scalar pack_nat pack_signed fits
attributes_lem c none given has_attributes = (
  27,
  attribute_bytes (0x65 ∷ []),
  rw has_attributes refl,
  omega (arith, length-attribute_bytes (0x65 ∷ [])),
)
attributes_lem c (some []) given has_attributes = absurd given
attributes_lem c (some (t ∷ ts)) given has_attributes =
    let octets = utf8 (t ∷ ts) in
    (
      6 + (5 + (length user_attr_timezone + (5 + length (t ∷ ts)))),
      attribute_bytes (text_bytes octets),
      rw has_attributes refl,
      omega (arith, length-attribute_bytes (text_bytes octets), length-text_bytes octets),
    )

no_attributes :
    (c : ProtocolContext) (timezone : Option Text)
    → is_user_attributes_supported c ≡ false
    → Part (attributes_part c timezone) 0 0
unfolding attributes_part
no_attributes c timezone none_there = (0, [], rw none_there refl, refl)

-- The eight bytes in front of the parts of a request.
abbrev opening : (ℕ × ℕ × ℕ) → List ℕ → List ℕ
opening v parts =
    (1 ∷ [])
    ++ (put_int 2 (pos v.0)
        ++ (put_int 2 (pos v.1) ++ (put_int 2 (pos v.2) ++ ((2 ∷ []) ++ parts))))

length-opening : (v : ℕ × ℕ × ℕ) (parts : List ℕ) → length (opening v parts) ≡ 8 + length parts
unfolding put_int to_bytes
length-opening v parts = omega arith

-- The code points, and the UTF-8 bytes, of the texts that a request carries.
abbrev pub chars : HandshakeRequest → ℕ
chars r =
    credential_chars r.credentials
    + (if is_user_attributes_supported r.context then zone_chars r.timezone else 0)

abbrev pub octets : HandshakeRequest → ℕ
octets r =
    credential_octets r.credentials
    + (if is_user_attributes_supported r.context then zone_octets r.timezone else 0)

attributes_either :
    (c : ProtocolContext) (timezone : Option Text)
    → ZoneGiven timezone
    → Part
        (attributes_part c timezone)
        (if is_user_attributes_supported c then zone_octets timezone else 0)
        (if is_user_attributes_supported c then zone_chars timezone else 0)
attributes_either c timezone given = elim (Bool-cases (is_user_attributes_supported c)) [
  | inl has_attributes ↦ rw has_attributes (attributes_lem c timezone given has_attributes)
  | inr none_there ↦ rw none_there (no_attributes c timezone none_there)
]

-- Where the features of the context are known and a time zone that is given is not empty, a request
-- is written, and the length in front of it differs from the number of the bytes that follow as the
-- code points of its texts do from their UTF-8 bytes.
pub write_handshake_lem :
    (r : HandshakeRequest)
    → FeaturesGiven r.context
    → ZoneGiven r.timezone
    → (size : ℕ) × (rest : List ℕ) × (write_handshake r ≡ ok (put_int 4 (pos size) ++ rest))
      × (size + octets r ≡ length rest + chars r)
unfolding write_handshake
write_handshake_lem r features given =
    let (f, fb, wrote_features, size_f) = features_lem r.context features in
    let (a, ab, wrote_attributes, size_a) = attributes_either r.context r.timezone given in
    let (n, nb, wrote_credentials, size_n) = credentials_lem r.credentials in
    let v = r.context.version in
    let parts = fb ++ (ab ++ nb) in
    (
      8 + (f + (a + n)),
      opening v parts,
      rw (wrote_features, wrote_attributes, wrote_credentials) refl,
      omega (
        arith,
        size_f,
        size_a,
        size_n,
        length-opening v parts,
        length-append fb (ab ++ nb),
        length-append ab nb,
      ),
    )
