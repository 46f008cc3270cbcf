-- ===== src/Connection/Handshake/Response/Answers.antt =====
-- The reading of what a server answers to a handshake.
use python_thin_client.Prelude.{
  ℕ, ◌^◌, ◌<◌, ◌≡◌, refl, true, false, Option, some, List, ◌++◌, append_assoc, arith, length, All,
}
use python_thin_client.Prelude.Int.{ℤ, pos}
use python_thin_client.Prelude.Numbers.{eq_ℤ}
use python_thin_client.Prelude.Outcome.{ok}
use python_thin_client.Datatypes.Wire.{Stream}
use python_thin_client.Datatypes.Scalars.{Scalar, put_int, Fits}
use python_thin_client.Datatypes.Scalars.Laws.{get_int-put_int}
use python_thin_client.Queries.Responses.Headers.{text_bytes, read_text_lem}
use python_thin_client.Datatypes.Scalars.Parse.{byte_arrays, uuids}
use python_thin_client.Datatypes.Values.{write_nullable}
use python_thin_client.Datatypes.Values.Elements.{NullableHolds, read_nullable_lem}
use python_thin_client.Connection.Protocol.{ProtocolContext, is_feature_flags_supported}
use python_thin_client.Connection.Handshake.Response.{
  refused, accepted, read_refused, read_features, read_ending, read_response,
}

abbrev pub VersionFits : ℤ × ℤ × ℤ → Type 0
VersionFits v = Fits 16 v.0 × Fits 16 v.1 × Fits 16 v.2

abbrev pub refusal : ℤ × ℤ × ℤ → List ℕ → ℤ → List ℕ
refusal v text status =
    put_int 2 v.0 ++ (put_int 2 v.1 ++ (put_int 2 v.2 ++ (text_bytes text ++ put_int 4 status)))

read_refused_lem :
    (v : ℤ × ℤ × ℤ) (text : List ℕ) (status : ℤ) (rest : Stream)
    → VersionFits v
    → length text < 2 ^ 31
    → All (λ b. 0 < b) text
    → Fits 32 status
    → read_refused (refusal v text status ++ rest) ≡ ok (refused v (some text) status, rest)
unfolding read_refused
read_refused_lem v text status rest hv small plain hs =
    let after = put_int 4 status ++ rest in
    let message = text_bytes text ++ after in
    let bytes : refusal v text status ++ rest
        ≡ put_int 2 v.0 ++ (put_int 2 v.1 ++ (put_int 2 v.2 ++ message)) =
      simp append_assoc refl in
    rw
      (
        bytes,
        get_int-put_int 2 v.0 (put_int 2 v.1 ++ (put_int 2 v.2 ++ message)) (omega arith) hv.0,
        get_int-put_int 2 v.1 (put_int 2 v.2 ++ message) (omega arith) hv.1,
        get_int-put_int 2 v.2 message (omega arith) hv.2,
        read_text_lem text after small plain,
        get_int-put_int 4 status rest (omega arith) hs,
      )
      refl

-- Whatever the context, a refusal whose numbers fit their fields and whose message has no code point
-- 0 reads back as the version that the server expects, its message and its status.
pub read_response_refused :
    (c : ProtocolContext) (size : ℤ) (v : ℤ × ℤ × ℤ) (text : List ℕ) (status : ℤ) (rest : Stream)
    → Fits 32 size
    → VersionFits v
    → length text < 2 ^ 31
    → All (λ b. 0 < b) text
    → Fits 32 status
    → read_response c (put_int 4 size ++ (put_int 1 (pos 0) ++ (refusal v text status ++ rest)))
      ≡ ok (record { size = size; op_code = pos 0; ending = refused v (some text) status }, rest)
unfolding read_response read_ending eq_ℤ
read_response_refused c size v text status rest h hv small plain hs =
    rw
      (
        get_int-put_int 4 size (put_int 1 (pos 0) ++ (refusal v text status ++ rest)) (omega arith)
            h,
        get_int-put_int 1 (pos 0) (refusal v text status ++ rest) (omega arith) (omega arith),
        read_refused_lem v text status rest hv small plain hs,
      )
      refl

-- With feature flags, an acceptance, whose operation code is not 0, reads back as the features and
-- the identifier of the node, each of them where it is not None.
pub read_response_accepted :
    (c : ProtocolContext) (size op_code : ℤ) (features node_uuid : Option Scalar) (rest : Stream)
    → is_feature_flags_supported c ≡ true
    → eq_ℤ op_code (pos 0) ≡ false
    → Fits 32 size
    → Fits 8 op_code
    → NullableHolds byte_arrays features
    → NullableHolds uuids node_uuid
    → (features_bytes : List ℕ) × (uuid_bytes : List ℕ) × (write_nullable features
        ≡ ok features_bytes)
      × (write_nullable node_uuid ≡ ok uuid_bytes)
      × (read_response c
            (put_int 4 size ++ (put_int 1 op_code ++ (features_bytes ++ (uuid_bytes ++ rest))))
          ≡ ok (
            record { size = size; op_code = op_code; ending = accepted features node_uuid },
            rest,
          ))
unfolding read_response read_ending read_features
read_response_accepted c size op_code features node_uuid rest flags accepting h ho hf hn =
    let (fb, wrote_features, back_features) = read_nullable_lem byte_arrays features hf in
    let (nb, wrote_node, back_node) = read_nullable_lem uuids node_uuid hn in
    (
      fb,
      nb,
      wrote_features,
      wrote_node,
      rw
          (
            get_int-put_int 4 size (put_int 1 op_code ++ (fb ++ (nb ++ rest))) (omega arith) h,
            get_int-put_int 1 op_code (fb ++ (nb ++ rest)) (omega arith) ho,
            accepting,
            flags,
            back_features (nb ++ rest),
            back_node rest,
          )
          refl,
    )
