-- ===== src/Api/KeyValue/Replies.antt =====
-- A call of api/key_value.py from the request to the result.
use python_thin_client.Prelude.{
  ℕ, ◌≤◌, ◌≡◌, true, Bool, Option, none, List, [], ◌++◌, append-nil, All,
}
use python_thin_client.Prelude.Int.{ℤ, pos}
use python_thin_client.Prelude.Outcome.{ok}
use python_thin_client.Datatypes.Wire.{Result}
use python_thin_client.Datatypes.Scalars.{Fits}
use python_thin_client.Datatypes.Values.{Binaries}
use python_thin_client.Utils.{max_long}
use python_thin_client.Connection.Protocol.{
  ProtocolContext, is_expiry_policy_supported, is_status_flags_supported,
}
use python_thin_client.Queries.CacheInfo.{ExpiryPolicy, CacheInfo, written_tx}
use python_thin_client.Queries.CacheInfo.RoundTrip.{AllFit, TxFits}
use python_thin_client.Queries.Responses.{post_process}
use python_thin_client.Queries.Responses.Headers.{success}
use python_thin_client.Queries.Perform.{Returned, perform}
use python_thin_client.Queries.Perform.Params.{ParamHolds, param_depth}
use python_thin_client.Queries.Perform.Payloads.{payload, Answers, payload_trip}
use python_thin_client.Queries.Perform.Replies.{Reply, ReplyFits, front, told, respond-success}
use python_thin_client.Api.KeyValue.Protocol.{Command, read_command}
use python_thin_client.Api.KeyValue.Requests.{Call, query, meant, write_request-read_command}

-- What a server does with a command on a cache, as the caller sees it.
abbrev pub Meaning : Type 0
Meaning = ℤ × Option ExpiryPolicy × Option ℤ → Command → Returned

-- A server keeps to the protocol: a request that it reads as a command it answers with success and the
-- value that the command has.
abbrev pub Conforms :
    Binaries → ℕ → Bool → (List ℕ → Result (List ℕ)) → Meaning → (ℤ → Reply) → Type 0
Conforms g fuel flags exchange meaning reply =
    (packet bytes : List ℕ) (query_id : ℤ) (cache : ℤ × Option ExpiryPolicy × Option ℤ)
    (command : Command)
    → read_command g fuel packet ≡ ok ((query_id, cache, command), [])
    → payload g (meaning cache command) ≡ ok bytes
    → exchange packet ≡ ok (front flags (reply query_id) success ++ bytes)

-- With a server that keeps to the protocol each function returns what the server means by its command
-- on its cache: where the cluster has expiry policies, the values of the request are ones that the
-- format holds, the answer is of the class that the function expects and has its binary objects
-- wrapped, and the stack has room for their depth.
pub perform_refines :
    (g : Binaries) (fuel : ℕ) (exchange : List ℕ → Result (List ℕ)) (meaning : Meaning)
    (reply : ℤ → Reply) (c : ProtocolContext) (tx : Option ℤ) (info : CacheInfo) (query_id : ℕ)
    (version : ℤ × ℤ) (call : Call)
    → Conforms g fuel (is_status_flags_supported c) exchange meaning reply
    → ReplyFits (reply (pos query_id))
    → is_expiry_policy_supported c ≡ true
    → Fits 32 info.cache_id
    → AllFit info.expiry_policy
    → TxFits tx
    → query_id ≤ max_long
    → All (ParamHolds g) (query call).following
    → All (λ p. param_depth p ≤ fuel) (query call).following
    → Answers g fuel
        (query call).response_config
        (meaning (info.cache_id, info.expiry_policy, written_tx c tx) (meant call))
    → perform g exchange fuel c tx info query_id version (query call)
      ≡ ok (
        record {
          status = pos 0;
          message = none;
          value = meaning (info.cache_id, info.expiry_policy, written_tx c tx) (meant call);
        },
        post_process (told (is_status_flags_supported c) (reply (pos query_id))) version,
      )
unfolding perform
perform_refines g fuel exchange meaning reply c tx info query_id version call conforms fits
      supported hi hp ht hq holds deep answers =
    let cache : ℤ × Option ExpiryPolicy × Option ℤ =
      (info.cache_id, info.expiry_policy, written_tx c tx) in
    let answer = meaning cache (meant call) in
    let (packet, wrote, back) =
      write_request-read_command g c tx info query_id call supported hi hp ht hq holds in
    let (bytes, paid, _) = payload_trip g fuel (query call).response_config answer answers in
    let heard : read_command g fuel packet ≡ ok ((pos query_id, cache, meant call), []) =
      rw (← append-nil packet) (back [] fuel deep) in
    let served = conforms packet bytes (pos query_id) cache (meant call) heard paid in
    rw wrote (
      respond-success g exchange fuel c version (query call).response_config packet
        (reply (pos query_id)) [] bytes answer fits answers paid (rw (append-nil bytes) served))
