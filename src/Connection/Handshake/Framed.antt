-- ===== src/Connection/Handshake/Framed.antt =====
-- The length in front of a handshake request whose texts are ASCII.
use python_thin_client.Prelude.{
  ℕ, ◌+◌, ◌≡◌, ap, refl, ◌∙◌, Option, none, some, List, ◌++◌, length, arith, if◌then◌else◌,
}
use python_thin_client.Prelude.Int.{pos}
use python_thin_client.Prelude.Outcome.{ok}
use python_thin_client.Datatypes.Scalars.{put_int}
use python_thin_client.Connection.Protocol.{is_user_attributes_supported}
use python_thin_client.Connection.Handshake.{Text, HandshakeRequest, write_handshake}
use python_thin_client.Connection.Handshake.Length.{
  IsAscii, length-utf8, FeaturesGiven, ZoneGiven, credential_chars, credential_octets, zone_chars,
  zone_octets, chars, octets, write_handshake_lem,
}

abbrev pub CredentialsAscii : Option (Text × Text) → Type 0
CredentialsAscii none = Unit {0}
CredentialsAscii (some (u, p)) = IsAscii u × IsAscii p

abbrev pub ZoneAscii : Option Text → Type 0
ZoneAscii none = Unit {0}
ZoneAscii (some t) = IsAscii t

credential_octets_lem :
    (k : Option (Text × Text)) → CredentialsAscii k → credential_octets k ≡ credential_chars k
credential_octets_lem none h = refl
credential_octets_lem (some (u, p)) h = omega (arith, length-utf8 u h.0, length-utf8 p h.1)

zone_octets_lem : (t : Option Text) → ZoneAscii t → zone_octets t ≡ zone_chars t
zone_octets_lem none h = refl
zone_octets_lem (some t) h = length-utf8 t h

octets-chars :
    (r : HandshakeRequest)
    → CredentialsAscii r.credentials
    → ZoneAscii r.timezone
    → octets r ≡ chars r
octets-chars r ascii_credentials ascii_zone =
    ap (λ n. n + (if is_user_attributes_supported r.context then zone_octets r.timezone else 0))
      (credential_octets_lem r.credentials ascii_credentials)
    ∙ ap
        (λ n.
          credential_chars r.credentials
          + (if is_user_attributes_supported r.context then n else 0))
        (zone_octets_lem r.timezone ascii_zone)

-- Where the features of the context are known, a time zone that is given is not empty, and name,
-- password and time zone are ASCII, a request is written, and the length in front of it is the
-- number of the bytes that follow.
pub write_handshake_framed :
    (r : HandshakeRequest)
    → FeaturesGiven r.context
    → ZoneGiven r.timezone
    → CredentialsAscii r.credentials
    → ZoneAscii r.timezone
    → (rest : List ℕ) × (write_handshake r ≡ ok (put_int 4 (pos (length rest)) ++ rest))
write_handshake_framed r features given ascii_credentials ascii_zone =
    let (size, rest, wrote, sizes) = write_handshake_lem r features given in
    let same : size ≡ length rest =
      omega (arith, sizes, octets-chars r ascii_credentials ascii_zone) in
    (rest, wrote ∙ ap (λ n. ok (put_int 4 (pos n) ++ rest)) same)
