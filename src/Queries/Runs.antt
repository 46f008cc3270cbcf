-- ===== src/Queries/Runs.antt =====
-- Runs of requests and responses.
use python_thin_client.Prelude.{
  ℕ, ◌+◌, ◌≡◌, refl, true, false, Option, none, some, List, [], ◌∷◌, ◌++◌, length, arith, ◌⊎◌, All,
}
use python_thin_client.Prelude.Int.{pos, negsuc}
use python_thin_client.Prelude.Outcome.{ok}
use python_thin_client.Datatypes.Wire.{Stream}
use python_thin_client.Connection.Protocol.{ProtocolContext, is_expiry_policy_supported, at_least}
use python_thin_client.Connection.Receive.{read_packet_len}
use python_thin_client.Queries.{write_query}
use python_thin_client.Queries.Requests.{write_query_framed, read_request}
use python_thin_client.Queries.CacheInfo.{ExpiryPolicy, CacheInfo, write_cache_info, written_tx}
use python_thin_client.Queries.CacheInfo.RoundTrip.{write_cache_info_lem, read_cache_info}
use python_thin_client.Queries.Responses.{read_header, newer}
use python_thin_client.Queries.Responses.Headers.{
  Answer, failure, flags_response, read_header_flags,
}
use python_thin_client.Queries.Responses.Topology.{Version, heard, heard_lem, Among, NotNewer}

write_query_example :
    (packet : List ℕ) × (write_query 1000 7 (ok (1 ∷ 2 ∷ [])) ≡ ok packet)
    × (read_packet_len packet ≡ pos (length packet))
    × (read_request (packet ++ (9 ∷ []))
        ≡ ok ((pos (2 + 10), pos 1000, pos 7), (1 ∷ 2 ∷ []) ++ (9 ∷ [])))
write_query_example =
    write_query_framed 1000 7 (1 ∷ 2 ∷ []) (9 ∷ []) (omega arith) (omega arith) (omega arith)

abbrev policy : ExpiryPolicy
policy = record { create = negsuc 1; update = pos 5000; access = negsuc 0 }

abbrev newest : ProtocolContext
newest = record { version = (1, 7, 1); features = none }

abbrev oldest : ProtocolContext
oldest = record { version = (1, 2, 0); features = none }

abbrev info : CacheInfo
info = record { cache_id = negsuc 40; expiry_policy = some policy }

cache_info_example :
    (body : List ℕ) × (write_cache_info newest (some (pos 3)) info ≡ ok body)
    × ((rest : Stream)
        → read_cache_info (body ++ rest)
          ≡ ok ((info.cache_id, info.expiry_policy, written_tx newest (some (pos 3))), rest))
unfolding is_expiry_policy_supported at_least
cache_info_example =
    write_cache_info_lem newest (some (pos 3)) info refl (omega arith)
      (omega arith, omega arith, omega arith) (omega arith)

abbrev failed_answer : Answer
failed_answer = failure (pos 1001) (110 ∷ 111 ∷ [])

flags_example :
    read_header true
      (flags_response (pos 40) (pos 7) (some (pos 3, pos 1)) failed_answer ++ (8 ∷ []))
    ≡ ok (
      record {
        query_id = pos 7;
        affinity = some (pos 3, pos 1);
        status = pos 1001;
        message = some (some (110 ∷ 111 ∷ []));
      },
      8 ∷ [],
    )
flags_example =
    read_header_flags (pos 40) (pos 7) (some (pos 3, pos 1)) failed_answer (8 ∷ []) (omega arith)
      (omega arith) (omega arith, omega arith)
      (omega arith, omega arith, (omega arith, (omega arith, tt)))

abbrev reports : List (Option Version)
reports = some (pos 5, pos 0) ∷ none ∷ some (pos 4, pos 9) ∷ []

heard_example :
    ((heard reports (pos 0, pos 0) ≡ (pos 0, pos 0)) ⊎ Among (heard reports (pos 0, pos 0)) reports)
    × (newer (pos 0, pos 0) (heard reports (pos 0, pos 0)) ≡ false)
    × All (NotNewer (heard reports (pos 0, pos 0))) reports
heard_example = heard_lem reports (pos 0, pos 0)
