-- ===== src/Queries/Requests.antt =====
-- Identifiers of queries, and the frame of a request.
use python_thin_client.Prelude.{
  ℕ, zero, suc, ◌+◌, ◌-◌, ◌*◌, ◌%◌, ◌^◌, ◌≤◌, ◌<◌, ◌≡◌, refl, ap, sym, ◌∙◌, some, List, ◌++◌, ltb,
  leb, if◌then◌else◌, length, get_elem?, take, arith, append_assoc, length-append, take-append_self,
  Bool-cases, inl, inr,
}
use python_thin_client.Prelude.Int.{ℤ, pos, ◌+ℤ◌}
use python_thin_client.Prelude.Numbers.{to_signed, unsigned}
use python_thin_client.Prelude.Outcome.{ok, ◌>>=◌}
use python_thin_client.Datatypes.Wire.{
  Stream, Result, to_bytes, from_bytes, length-to_bytes, from_bytes-to_bytes,
}
use python_thin_client.Datatypes.Scalars.{put_int, get_int}
use python_thin_client.Datatypes.Scalars.Laws.{get_int-put_int}
use python_thin_client.Connection.Receive.{read_packet_len}
use python_thin_client.Utils.{max_long}
use python_thin_client.Queries.{get_query_id, query_ids, write_query, header_size}

-- From a counter on, the i-th query has the identifier counter + i + 1, up to the greatest that the
-- protocol has; every query after that has 0.
pub query_ids_lem :
    (n counter i : ℕ)
    → i < n
    → get_elem? (query_ids n counter) i
      ≡ some (if ltb (counter + i) max_long then counter + i + 1 else 0)
unfolding query_ids get_query_id
query_ids_lem zero counter i h = absurd (omega arith)
query_ids_lem (suc n) counter zero h = ground arith
query_ids_lem (suc n) counter (suc i) h = elim (Bool-cases (leb max_long counter)) [
  | inl over ↦ rw over (query_ids_lem n counter i (omega arith) ∙ ground arith)
  | inr below ↦ rw below (query_ids_lem n (counter + 1) i (omega arith) ∙ ground arith)
]

-- What a server reads at the front of a request: its length, the operation, and the identifier.
abbrev pub read_request : Stream → Result ((ℤ × ℤ × ℤ) × Stream)
read_request s = do
  (size, s1) ← get_int 4 s
  (op_code, s2) ← get_int 2 s1
  (query_id, s3) ← get_int 8 s2
  ok ((size, op_code, query_id), s3)

length-put_int : (n : ℕ) (v : ℤ) → length (put_int n v) ≡ n
unfolding put_int
length-put_int n v = length-to_bytes n (unsigned (8 * n) v)

-- The length in front of a packet is what `recv` reads.
read_packet_len-put_int :
    (size : ℕ) (tail : List ℕ)
    → size < 2 ^ 31
    → length tail ≡ size
    → read_packet_len (put_int 4 (pos size) ++ tail) ≡ pos (length (put_int 4 (pos size) ++ tail))
unfolding read_packet_len put_int unsigned to_signed ◌+ℤ◌
read_packet_len-put_int size tail small e =
    let front : take 4 (to_bytes 4 (size % 2 ^ 32) ++ tail) ≡ to_bytes 4 (size % 2 ^ 32) =
      ap (λ n. take n (to_bytes 4 (size % 2 ^ 32) ++ tail))
        (sym (length-to_bytes 4 (size % 2 ^ 32)))
      ∙ take-append_self (to_bytes 4 (size % 2 ^ 32)) tail in
    let value : from_bytes (take 4 (to_bytes 4 (size % 2 ^ 32) ++ tail)) ≡ size =
      ap from_bytes front ∙ from_bytes-to_bytes 4 (size % 2 ^ 32) (omega arith) ∙ omega arith in
    let whole : length (to_bytes 4 (size % 2 ^ 32) ++ tail) ≡ size + 4 =
      omega (
        arith,
        length-append (to_bytes 4 (size % 2 ^ 32)) tail,
        length-to_bytes 4 (size % 2 ^ 32),
      ) in
    rw (value, whole) (ground arith)

-- A request is one packet by its own length, and a server reads back the operation, the identifier
-- and the body of it.
pub write_query_framed :
    (op_code query_id : ℕ) (body rest : List ℕ)
    → op_code < 2 ^ 15
    → query_id ≤ max_long
    → length body + 10 < 2 ^ 31
    → (packet : List ℕ) × (write_query op_code query_id (ok body) ≡ ok packet)
      × (read_packet_len packet ≡ pos (length packet))
      × (read_request (packet ++ rest)
          ≡ ok ((pos (length body + 10), pos op_code, pos query_id), body ++ rest))
unfolding write_query
write_query_framed op_code query_id body rest ho hq hb =
    let size = header_size + length body - 4 in
    let same : size ≡ length body + 10 = omega arith in
    let tail = put_int 2 (pos op_code) ++ (put_int 8 (pos query_id) ++ body) in
    (
      put_int 4 (pos size) ++ tail,
      refl,
      read_packet_len-put_int size tail (omega arith) (
          omega (
            arith,
            length-append (put_int 2 (pos op_code)) (put_int 8 (pos query_id) ++ body),
            length-append (put_int 8 (pos query_id)) body,
            length-put_int 2 (pos op_code),
            length-put_int 8 (pos query_id),
          )),
      rw (
        append_assoc,
        get_int-put_int 4 (pos size) (tail ++ rest) (omega arith) (omega arith),
        append_assoc,
        get_int-put_int 2 (pos op_code) ((put_int 8 (pos query_id) ++ body) ++ rest) (omega arith)
            (omega arith),
        append_assoc,
        get_int-put_int 8 (pos query_id) (body ++ rest) (omega arith) (omega arith),
        same,
      ),
    )
