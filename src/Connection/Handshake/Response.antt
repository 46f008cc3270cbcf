-- ===== src/Connection/Handshake/Response.antt =====
-- `HandshakeResponse.parse` of pygridgain/connection/handshake.py.
pub mod Answers
use python_thin_client.Prelude.{ℕ, Bool, true, false, Option, none, some, List, if◌then◌else◌}
use python_thin_client.Prelude.Int.{ℤ, pos}
use python_thin_client.Prelude.Numbers.{eq_ℤ}
use python_thin_client.Prelude.Outcome.{Outcome, ok, raised, ◌>>=◌}
use python_thin_client.Datatypes.Wire.{Stream, Result}
use python_thin_client.Datatypes.Scalars.{Scalar, get_int}
use python_thin_client.Datatypes.Scalars.Parse.{byte_arrays, uuids}
use python_thin_client.Datatypes.Values.{read_nullable}
use python_thin_client.Queries.Responses.{read_message}
use python_thin_client.Connection.Protocol.{
  ProtocolContext, is_feature_flags_supported, is_partition_awareness_supported,
}

-- What follows the length and the operation code. A key that is absent is read as None.
pub data Ending : Type 0 where
  refused : ℤ × ℤ × ℤ → Option (List ℕ) → ℤ → Ending
  accepted : Option Scalar → Option Scalar → Ending

pub record HandshakeResponse : Type 0 where
  pub size : ℤ
  pub op_code : ℤ
  pub ending : Ending

unfoldable pub read_refused : Stream → Result (Ending × Stream)
unfolding get_int read_message
read_refused s = do
  (major, s1) ← get_int 2 s
  (minor, s2) ← get_int 2 s1
  (patch, s3) ← get_int 2 s2
  (message, s4) ← read_message s3
  (client_status, s5) ← get_int 4 s4
  ok (refused (major, minor, patch) message client_status, s5)

unfoldable pub read_features : Stream → Result (Ending × Stream)
unfolding read_nullable
read_features s = do
  (features, s1) ← read_nullable byte_arrays s
  (node_uuid, s2) ← read_nullable uuids s1
  ok (accepted features node_uuid, s2)

unfoldable pub read_node : Stream → Result (Ending × Stream)
unfolding read_nullable
read_node s = do (node_uuid, s1) ← read_nullable uuids s; ok (accepted none node_uuid, s1)

-- `__create_response_end` and the parsing of what it gives
unfoldable pub read_ending : ProtocolContext → ℤ → Stream → Result (Ending × Stream)
unfolding read_refused read_features read_node
read_ending c op_code s =
    if eq_ℤ op_code (pos 0)
    then read_refused s
    else if is_feature_flags_supported c
    then read_features s
    else if is_partition_awareness_supported c
    then read_node s
    else ok (accepted none none, s)

unfoldable pub read_response : ProtocolContext → Stream → Result (HandshakeResponse × Stream)
unfolding get_int read_ending
read_response c s = do
  (size, s1) ← get_int 4 s
  (op_code, s2) ← get_int 1 s1
  (ending, s3) ← read_ending c op_code s2
  ok (record { size = size; op_code = op_code; ending = ending }, s3)
