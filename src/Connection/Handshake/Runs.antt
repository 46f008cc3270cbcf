-- ===== src/Connection/Handshake/Runs.antt =====
-- The handshake request on concrete texts.
use python_thin_client.Prelude.{
  arith, some, inr, ℕ, ◌+◌, ◌≡◌, none, List, [], ◌∷◌, ◌++◌, length, refl, inl,
}
use python_thin_client.Prelude.Int.{pos}
use python_thin_client.Prelude.Outcome.{ok}
use python_thin_client.Datatypes.Wire.{to_bytes}
use python_thin_client.Datatypes.Scalars.{put_int}
use python_thin_client.Connection.Protocol.{
  new_context, feature_bytes, is_feature_flags_supported, at_least,
}
use python_thin_client.Connection.Handshake.{HandshakeRequest, new_request, write_handshake}
use python_thin_client.Connection.Handshake.Response.{refused, read_response}
use python_thin_client.Connection.Handshake.Response.Answers.{refusal, read_response_refused}
use python_thin_client.Connection.Handshake.Framed.{write_handshake_framed}
use python_thin_client.Connection.Handshake.Length.{octets, chars, write_handshake_lem}

-- The name "é" and the password "ab", for version 1.5.0.
abbrev accented : HandshakeRequest
accented = new_request (new_context (1, 5, 0) none) (0xe9 ∷ []) (97 ∷ 98 ∷ []) none

write_handshake_example :
    (size : ℕ) × (rest : List ℕ) × (write_handshake accented ≡ ok (put_int 4 (pos size) ++ rest))
    × (size + octets accented ≡ length rest + chars accented)
unfolding new_request new_context is_feature_flags_supported at_least
write_handshake_example = write_handshake_lem accented (inl refl) tt

-- The name "ab" and the password "c", with the time zone "UTC", for version 1.7.1 with one feature.
abbrev plain : HandshakeRequest
plain =
    new_request (new_context (1, 7, 1) (some 4)) (97 ∷ 98 ∷ []) (99 ∷ []) (some (85 ∷ 84 ∷ 67 ∷ []))

write_handshake_framed_example :
    (rest : List ℕ) × (write_handshake plain ≡ ok (put_int 4 (pos (length rest)) ++ rest))
unfolding new_request new_context is_feature_flags_supported at_least feature_bytes to_bytes
write_handshake_framed_example =
    write_handshake_framed plain (inr (4, refl, omega arith)) tt
      ((omega arith, (omega arith, tt)), (omega arith, tt))
      (omega arith, (omega arith, (omega arith, tt)))

-- A server of version 1.6.0 refuses with the message "no" and status 1.
read_response_refused_example :
    read_response plain.context (
      put_int 4 (pos 18)
      ++ (put_int 1 (pos 0) ++ (refusal (pos 1, pos 6, pos 0) (110 ∷ 111 ∷ []) (pos 1) ++ [])))
    ≡ ok (
      record {
        size = pos 18;
        op_code = pos 0;
        ending = refused (pos 1, pos 6, pos 0) (some (110 ∷ 111 ∷ [])) (pos 1);
      },
      [],
    )
read_response_refused_example =
    read_response_refused plain.context (pos 18) (pos 1, pos 6, pos 0) (110 ∷ 111 ∷ []) (pos 1) []
      (omega arith) (omega arith, omega arith, omega arith) (omega arith)
      (omega arith, (omega arith, tt)) (omega arith)
