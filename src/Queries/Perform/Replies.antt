-- ===== src/Queries/Perform/Replies.antt =====
-- What `perform` makes of the answers of a server.
use python_thin_client.Prelude.{
  ℕ, ◌≡◌, refl, Bool, true, false, Option, none, some, List, ◌++◌, if◌then◌else◌,
}
use python_thin_client.Prelude.Int.{ℤ, pos}
use python_thin_client.Prelude.Numbers.{eq_ℤ}
use python_thin_client.Prelude.Outcome.{ok}
use python_thin_client.Datatypes.Wire.{Stream, Result}
use python_thin_client.Datatypes.Scalars.{Fits}
use python_thin_client.Datatypes.Values.{Binaries}
use python_thin_client.Connection.Protocol.{ProtocolContext, is_status_flags_supported}
use python_thin_client.Queries.Responses.{read_header, post_process}
use python_thin_client.Queries.Responses.Headers.{
  Answer, success, failure, AnswerFits, VersionFits, IsFailing, flags_response, plain_response,
  status_of, message_of, read_header_flags, read_header_plain,
}
use python_thin_client.Queries.Perform.{
  FieldClass, Returned, nothing, read_returned, api_result, respond,
}
use python_thin_client.Queries.Perform.Payloads.{payload, Answers, payload_trip}

-- What a server says in the front of a response besides its answer, and the bytes of the front in a
-- protocol with status flags or without.
pub record Reply : Type 0 where
  pub size : ℤ
  pub query_id : ℤ
  pub affinity : Option (ℤ × ℤ)

abbrev pub front : Bool → Reply → Answer → List ℕ
front flags r answer =
    if flags
    then flags_response r.size r.query_id r.affinity answer
    else plain_response r.size r.query_id answer

abbrev pub ReplyFits : Reply → Type 0
ReplyFits r = Fits 32 r.size × Fits 64 r.query_id × VersionFits r.affinity

-- The affinity version that a response has in it.
abbrev pub told : Bool → Reply → Option (ℤ × ℤ)
told flags r = if flags then r.affinity else none

read_header_lem :
    (flags : Bool) (r : Reply) (answer : Answer) (rest : Stream)
    → ReplyFits r
    → AnswerFits answer
    → IsFailing answer
    → read_header flags (front flags r answer ++ rest)
      ≡ ok (
        record {
          query_id = r.query_id;
          affinity = told flags r;
          status = status_of answer;
          message = message_of answer;
        },
        rest,
      )
read_header_lem true r answer rest (hs, hq, hv) ha bad =
    read_header_flags r.size r.query_id r.affinity answer rest hs hq hv ha
read_header_lem false r answer rest (hs, hq, hv) ha bad =
    read_header_plain r.size r.query_id answer rest hs hq ha bad

api_result_failed :
    (g : Binaries) (fuel : ℕ) (config : Option FieldClass) (query_id status : ℤ)
    (affinity : Option (ℤ × ℤ)) (text : Option (List ℕ)) (s : Stream)
    → eq_ℤ status (pos 0) ≡ false
    → api_result g fuel config
        (record { query_id = query_id; affinity = affinity; status = status; message = some text })
        s
      ≡ ok (record { status = status; message = some text; value = nothing })
unfolding api_result
api_result_failed g fuel none query_id status affinity text s bad = refl
api_result_failed g fuel (some config) query_id status affinity text s bad = rw bad refl

module _ (g : Binaries) (exchange : List ℕ → Result (List ℕ)) (fuel : ℕ) (c : ProtocolContext)
    (version : ℤ × ℤ) (config : Option FieldClass) (packet : List ℕ) (reply : Reply) where
  -- To an answer of success, with the bytes of a value of the class that the query expects and whatever
  -- follows, `perform` returns that value with the status 0, in either protocol, and the client has the
  -- later of the affinity versions.
  pub respond-success :
      (rest bytes : List ℕ) (r : Returned)
      → ReplyFits reply
      → Answers g fuel config r
      → payload g r ≡ ok bytes
      → exchange packet ≡ ok (front (is_status_flags_supported c) reply success ++ (bytes ++ rest))
      → respond g exchange fuel c version config packet
        ≡ ok (
          record { status = pos 0; message = none; value = r },
          post_process (told (is_status_flags_supported c) reply) version,
        )
  unfolding respond api_result
  respond-success rest bytes r fits answers paid served =
      let (body, written, back) = payload_trip g fuel config r answers in
      let same : body ≡ bytes = cc in
      let read : read_returned g fuel config (bytes ++ rest) ≡ ok (r, rest) =
        rw (← same) (back rest) in
      rw
        (
          served,
          read_header_lem (is_status_flags_supported c) reply success (bytes ++ rest) fits tt tt,
          read,
        )
        refl

  -- To an answer of failure with a status other than 0, `perform` returns no value but the status and
  -- the message, whatever the query expects and whatever follows, and the client has the later of the
  -- affinity versions.
  pub respond-failure :
      (rest text : List ℕ) (status : ℤ)
      → ReplyFits reply
      → AnswerFits (failure status text)
      → eq_ℤ status (pos 0) ≡ false
      → exchange packet
        ≡ ok (front (is_status_flags_supported c) reply (failure status text) ++ rest)
      → respond g exchange fuel c version config packet
        ≡ ok (
          record { status = status; message = some (some text); value = nothing },
          post_process (told (is_status_flags_supported c) reply) version,
        )
  unfolding respond
  respond-failure rest text status fits ha bad served =
      rw
        (
          served,
          read_header_lem (is_status_flags_supported c) reply (failure status text) rest fits ha
              bad,
          api_result_failed g fuel config _ status _ (some text) rest bad,
        )
        refl
