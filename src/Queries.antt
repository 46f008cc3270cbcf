-- ===== src/Queries.antt =====
-- pygridgain/queries: identifiers and headers of requests, the description of a cache in a request,
-- and headers of responses.
pub mod CacheInfo
pub mod Requests
pub mod Responses
pub mod Perform
mod Runs
use python_thin_client.Prelude.{
  ℕ, zero, suc, ◌+◌, ◌-◌, ◌<◌, Bool, true, false, List, [], ◌∷◌, ◌++◌, leb, if◌then◌else◌, length,
}
use python_thin_client.Prelude.Int.{ℤ, pos, negsuc, ◌-ℤ◌}
use python_thin_client.Prelude.Outcome.{ok, raised, ◌>>=◌}
use python_thin_client.Datatypes.Wire.{Result}
use python_thin_client.Datatypes.Scalars.{put_int}
use python_thin_client.Utils.{max_long}

-- `_get_query_id`: the identifier, and the counter then
unfoldable pub get_query_id : ℕ → ℕ × ℕ
get_query_id counter = if leb max_long counter then (0, counter) else (counter + 1, counter + 1)

-- the identifiers of the next n queries
unfoldable pub query_ids : ℕ → ℕ → List ℕ
unfolding get_query_id
query_ids zero counter = []
query_ids (suc n) counter =
    let (query_id, counter') = get_query_id counter in query_id ∷ query_ids n counter'

abbrev pub header_size : ℕ
header_size = 14

-- `from_python`: the header is written last, over the place that was left for it.
unfoldable pub write_query : ℕ → ℕ → Result (List ℕ) → Result (List ℕ)
unfolding put_int
write_query op_code query_id following = do
  body ← following
  ok (
      put_int 4 (pos (header_size + length body - 4))
      ++ (put_int 2 (pos op_code) ++ (put_int 8 (pos query_id) ++ body)))

abbrev pub config_header_size : ℕ
config_header_size = 18

-- `ConfigQuery` computes `config_length` when the length in the header is still 0.
unfoldable pub write_config_query : ℕ → ℕ → Result (List ℕ) → Result (List ℕ)
unfolding put_int
write_config_query op_code query_id following = do
  body ← following
  ok (
      put_int 4 (pos (config_header_size + length body - 4))
      ++ (put_int 2 (pos op_code)
          ++ (put_int 8 (pos query_id) ++ (put_int 4 (pos 0 -ℤ pos config_header_size) ++ body))))
