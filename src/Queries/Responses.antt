-- ===== src/Queries/Responses.antt =====
-- The headers of responses of pygridgain/queries/response.py, and what `Query` makes of them. The
-- fields that follow a successful answer are left in the stream.
pub mod Headers
pub mod Topology
use python_thin_client.Prelude.{
  ℕ, Bool, true, false, ◌&&◌, ◌||◌, not, Option, none, some, List, [], ◌∷◌, ◌==◌, if◌then◌else◌,
}
use python_thin_client.Prelude.Int.{ℤ, pos, negsuc, ltb_ℤ}
use python_thin_client.Prelude.Numbers.{and_mask, eq_ℤ}
use python_thin_client.Prelude.Outcome.{Outcome, ok, raised, ◌>>=◌}
use python_thin_client.Datatypes.Scalars.{c_string}
use python_thin_client.Datatypes.Wire.{Stream, Result, CodecError, field, raw}
use python_thin_client.Datatypes.Scalars.{get_int}

abbrev pub rhf_error : ℕ
rhf_error = 1

abbrev pub rhf_topology_changed : ℕ
rhf_topology_changed = 2

abbrev pub tc_null : ℕ
tc_null = 0x65

unfoldable pub read_text : Stream → Result (Option (List ℕ) × Stream)
unfolding c_string
read_text s = do (n, s1) ← field 4 s; (octets, s2) ← raw n s1; ok (some (c_string octets), s2)

-- `String.parse` and `to_python`: any type code but that of None is taken for a text's.
unfoldable pub read_message : Stream → Result (Option (List ℕ) × Stream)
unfolding read_text
read_message s = do (code, s1) ← field 1 s; if code == tc_null then ok (none, s1) else read_text s1

-- An answer: the status of `APIResult`, and the message where there is one.
pub record Response : Type 0 where
  pub query_id : ℤ
  pub affinity : Option (ℤ × ℤ)
  pub status : ℤ
  pub message : Option (Option (List ℕ))

unfoldable pub read_affinity : Bool → Stream → Result (Option (ℤ × ℤ) × Stream)
unfolding get_int
read_affinity false s = ok (none, s)
read_affinity true s = do
  (version, s1) ← get_int 8 s
  (minor, s2) ← get_int 4 s1
  ok (some (version, minor), s2)

unfoldable pub read_status : Bool → Stream → Result (ℤ × Stream)
unfolding get_int
read_status false s = ok (pos 0, s)
read_status true s = get_int 4 s

unfoldable pub read_error : Bool → Stream → Result (Option (Option (List ℕ)) × Stream)
unfolding read_message
read_error false s = ok (none, s)
read_error true s = do (message, s1) ← read_message s; ok (some message, s1)

unfoldable pub has_flag : ℕ → ℤ → Bool
has_flag mask flags = not (and_mask flags mask == 0)

-- with `StatusFlagResponseHeader`
unfoldable pub read_flags_header : Stream → Result (Response × Stream)
unfolding get_int has_flag read_affinity read_status read_error
read_flags_header s = do
  (size, s1) ← get_int 4 s
  (query_id, s2) ← get_int 8 s1
  (flags, s3) ← get_int 2 s2
  (affinity, s4) ← read_affinity (has_flag rhf_topology_changed flags) s3
  (status, s5) ← read_status (has_flag rhf_error flags) s4
  (message, s6) ← read_error (has_flag rhf_error flags) s5
  ok (record { query_id = query_id; affinity = affinity; status = status; message = message }, s6)

-- with `ResponseHeader`
unfoldable pub read_plain_header : Stream → Result (Response × Stream)
unfolding get_int read_error
read_plain_header s = do
  (size, s1) ← get_int 4 s
  (query_id, s2) ← get_int 8 s1
  (status, s3) ← get_int 4 s2
  (message, s4) ← read_error (not (eq_ℤ status (pos 0))) s3
  ok (record { query_id = query_id; affinity = none; status = status; message = message }, s4)

-- `__parse_header`, by whether the protocol has status flags
unfoldable pub read_header : Bool → Stream → Result (Response × Stream)
unfolding read_flags_header read_plain_header
read_header true s = read_flags_header s
read_header false s = read_plain_header s

-- v > w, as tuples
unfoldable pub newer : ℤ × ℤ → ℤ × ℤ → Bool
newer v w = ltb_ℤ w.0 v.0 || (not (ltb_ℤ v.0 w.0) && ltb_ℤ w.1 v.1)

-- `__post_process_response`: the affinity version of the client after a response
unfoldable pub post_process : Option (ℤ × ℤ) → ℤ × ℤ → ℤ × ℤ
unfolding newer
post_process none old = old
post_process (some new) old = if newer new old then new else old
