-- ===== src/Queries/Responses/Headers.antt =====
-- Reading back the headers of responses that a server writes.
use python_thin_client.Prelude.{
  ℕ, ◌*◌, ◌^◌, ◌<◌, ◌≡◌, refl, true, false, not, Option, none, some, List, [], ◌∷◌, ◌++◌,
  append_assoc, arith, length, All,
}
use python_thin_client.Prelude.Int.{ℤ, pos}
use python_thin_client.Prelude.Numbers.{and_mask, eq_ℤ}
use python_thin_client.Prelude.Outcome.{ok}
use python_thin_client.Datatypes.Wire.{field_byte, Stream, to_bytes, field-to_bytes, raw-append}
use python_thin_client.Datatypes.Scalars.{put_int, Fits}
use python_thin_client.Datatypes.Scalars.Laws.{get_int-put_int}
use python_thin_client.Datatypes.Scalars.Objects.{c_string_whole}
use python_thin_client.Queries.Responses.{
  read_message, read_text, read_affinity, read_status, read_error, has_flag, read_flags_header,
  read_plain_header, read_header, rhf_error, rhf_topology_changed,
}

-- What a server answers: success, or a status with a text.
pub data Answer : Type 0 where
  success : Answer
  failure : ℤ → List ℕ → Answer

abbrev pub flags_of : Option (ℤ × ℤ) → Answer → ℕ
flags_of none success = 0
flags_of none (failure status text) = 1
flags_of (some v) success = 2
flags_of (some v) (failure status text) = 3

abbrev pub topology_bytes : Option (ℤ × ℤ) → List ℕ
topology_bytes none = []
topology_bytes (some v) = put_int 8 v.0 ++ put_int 4 v.1

abbrev pub text_bytes : List ℕ → List ℕ
text_bytes text = 0x09 ∷ (to_bytes 4 (length text) ++ text)

abbrev pub status_bytes : Answer → List ℕ
status_bytes success = []
status_bytes (failure status text) = put_int 4 status

abbrev pub error_bytes : Answer → List ℕ
error_bytes success = []
error_bytes (failure status text) = text_bytes text

-- A response with status flags.
abbrev pub flags_response : ℤ → ℤ → Option (ℤ × ℤ) → Answer → List ℕ
flags_response size query_id affinity answer =
    put_int 4 size
    ++ (put_int 8 query_id
        ++ (put_int 2 (pos (flags_of affinity answer))
            ++ (topology_bytes affinity ++ (status_bytes answer ++ error_bytes answer))))

abbrev pub status_of : Answer → ℤ
status_of success = pos 0
status_of (failure status text) = status

abbrev pub message_of : Answer → Option (Option (List ℕ))
message_of success = none
message_of (failure status text) = some (some text)

-- The numbers fit their fields, and a text has no code point 0.
abbrev pub AnswerFits : Answer → Type 0
AnswerFits success = Unit {0}
AnswerFits (failure status text) = Fits 32 status × (length text < 2 ^ 31) × All (λ b. 0 < b) text

abbrev pub VersionFits : Option (ℤ × ℤ) → Type 0
VersionFits none = Unit {0}
VersionFits (some v) = Fits 64 v.0 × Fits 32 v.1

pub read_text_lem :
    (text : List ℕ) (rest : Stream)
    → length text < 2 ^ 31
    → All (λ b. 0 < b) text
    → read_message (text_bytes text ++ rest) ≡ ok (some text, rest)
unfolding read_message read_text
read_text_lem text rest small plain =
    rw
      (
        append_assoc,
        field_byte 9 (to_bytes 4 (length text) ++ (text ++ rest)),
        field-to_bytes 4 (length text) (text ++ rest) (omega arith),
        raw-append text rest,
        c_string_whole text plain,
      )
      refl

affinity_lem :
    (affinity : Option (ℤ × ℤ)) (answer : Answer) (rest : Stream)
    → VersionFits affinity
    → read_affinity
        (has_flag rhf_topology_changed (pos (flags_of affinity answer)))
        (topology_bytes affinity ++ rest)
      ≡ ok (affinity, rest)
unfolding read_affinity has_flag and_mask
affinity_lem none success rest h = refl
affinity_lem none (failure status text) rest h = refl
affinity_lem (some v) success rest h =
    rw
      (
        append_assoc,
        get_int-put_int 8 v.0 (put_int 4 v.1 ++ rest) (omega arith) h.0,
        get_int-put_int 4 v.1 rest (omega arith) h.1,
      )
      refl
affinity_lem (some v) (failure status text) rest h =
    rw
      (
        append_assoc,
        get_int-put_int 8 v.0 (put_int 4 v.1 ++ rest) (omega arith) h.0,
        get_int-put_int 4 v.1 rest (omega arith) h.1,
      )
      refl

status_lem :
    (affinity : Option (ℤ × ℤ)) (answer : Answer) (rest : Stream)
    → AnswerFits answer
    → read_status
        (has_flag rhf_error (pos (flags_of affinity answer)))
        (status_bytes answer ++ rest)
      ≡ ok (status_of answer, rest)
unfolding read_status has_flag and_mask
status_lem none success rest h = refl
status_lem (some v) success rest h = refl
status_lem none (failure status text) rest h = get_int-put_int 4 status rest (omega arith) h.0
status_lem (some v) (failure status text) rest h = get_int-put_int 4 status rest (omega arith) h.0

error_lem :
    (affinity : Option (ℤ × ℤ)) (answer : Answer) (rest : Stream)
    → AnswerFits answer
    → read_error (has_flag rhf_error (pos (flags_of affinity answer))) (error_bytes answer ++ rest)
      ≡ ok (message_of answer, rest)
unfolding read_error has_flag and_mask
error_lem none success rest h = refl
error_lem (some v) success rest h = refl
error_lem none (failure status text) rest h = rw (read_text_lem text rest h.1 h.2) refl
error_lem (some v) (failure status text) rest h = rw (read_text_lem text rest h.1 h.2) refl

flags_small : (affinity : Option (ℤ × ℤ)) (answer : Answer) → 2 * flags_of affinity answer < 2 ^ 16
flags_small none success = omega arith
flags_small (some v) success = omega arith
flags_small none (failure status text) = omega arith
flags_small (some v) (failure status text) = omega arith

-- With status flags a response reads back its identifier, the change of the topology, the status and
-- the message, and leaves the fields that follow.
pub read_header_flags :
    (size query_id : ℤ) (affinity : Option (ℤ × ℤ)) (answer : Answer) (rest : Stream)
    → Fits 32 size
    → Fits 64 query_id
    → VersionFits affinity
    → AnswerFits answer
    → read_header true (flags_response size query_id affinity answer ++ rest)
      ≡ ok (
        record {
          query_id = query_id;
          affinity = affinity;
          status = status_of answer;
          message = message_of answer;
        },
        rest,
      )
unfolding read_header read_flags_header
read_header_flags size query_id affinity answer rest hs hq hv ha =
    let errors = error_bytes answer ++ rest in
    let statuses = status_bytes answer ++ errors in
    let changes = topology_bytes affinity ++ statuses in
    let flags = pos (flags_of affinity answer) in
    let bytes : flags_response size query_id affinity answer ++ rest
        ≡ put_int 4 size ++ (put_int 8 query_id ++ (put_int 2 flags ++ changes)) =
      simp append_assoc refl in
    rw
      (
        bytes,
        get_int-put_int 4 size (put_int 8 query_id ++ (put_int 2 flags ++ changes)) (omega arith)
            hs,
        get_int-put_int 8 query_id (put_int 2 flags ++ changes) (omega arith) hq,
        get_int-put_int 2 flags changes (omega arith) (flags_small affinity answer),
        affinity_lem affinity answer statuses hv,
        status_lem affinity answer errors ha,
        error_lem affinity answer rest ha,
      )
      refl

-- A response of a protocol without status flags.
abbrev pub plain_response : ℤ → ℤ → Answer → List ℕ
plain_response size query_id answer =
    put_int 4 size ++ (put_int 8 query_id ++ (put_int 4 (status_of answer) ++ error_bytes answer))

abbrev pub IsFailing : Answer → Type 0
IsFailing success = Unit {0}
IsFailing (failure status text) = eq_ℤ status (pos 0) ≡ false

plain_error :
    (answer : Answer) (rest : Stream)
    → AnswerFits answer
    → IsFailing answer
    → read_error (not (eq_ℤ (status_of answer) (pos 0))) (error_bytes answer ++ rest)
      ≡ ok (message_of answer, rest)
unfolding read_error eq_ℤ
plain_error success rest h bad = refl
plain_error (failure status text) rest h bad = rw (bad, read_text_lem text rest h.1 h.2) refl

status_of-Fits : (answer : Answer) → AnswerFits answer → Fits 32 (status_of answer)
status_of-Fits success h = omega arith
status_of-Fits (failure status text) h = h.0

-- Without status flags a response reads back its identifier, the status and the message, where a
-- failure has a status other than 0.
pub read_header_plain :
    (size query_id : ℤ) (answer : Answer) (rest : Stream)
    → Fits 32 size
    → Fits 64 query_id
    → AnswerFits answer
    → IsFailing answer
    → read_header false (plain_response size query_id answer ++ rest)
      ≡ ok (
        record {
          query_id = query_id;
          affinity = none;
          status = status_of answer;
          message = message_of answer;
        },
        rest,
      )
unfolding read_header read_plain_header
read_header_plain size query_id answer rest hs hq ha bad =
    let errors = error_bytes answer ++ rest in
    let status = status_of answer in
    let bytes : plain_response size query_id answer ++ rest
        ≡ put_int 4 size ++ (put_int 8 query_id ++ (put_int 4 status ++ errors)) =
      simp append_assoc refl in
    rw
      (
        bytes,
        get_int-put_int 4 size (put_int 8 query_id ++ (put_int 4 status ++ errors)) (omega arith)
            hs,
        get_int-put_int 8 query_id (put_int 4 status ++ errors) (omega arith) hq,
        get_int-put_int 4 status errors (omega arith) (status_of-Fits answer ha),
        plain_error answer rest ha bad,
      )
      refl
