-- ===== src/Api/KeyValue/Requests.antt =====
-- The functions of api/key_value.py: what each call means, and what a server reads of its request.
use python_thin_client.Prelude.{ℕ, ◌≤◌, ◌≡◌, refl, true, Option, List, ◌++◌, All, arith}
use python_thin_client.Prelude.Int.{ℤ, pos}
use python_thin_client.Prelude.Numbers.{eq_ℤ}
use python_thin_client.Prelude.Outcome.{ok}
use python_thin_client.Prelude.Dict.{lookup, int_key}
use python_thin_client.Datatypes.Wire.{Stream}
use python_thin_client.Datatypes.Scalars.{Fits}
use python_thin_client.Datatypes.Values.{Value, Items, Entries, Binaries}
use python_thin_client.Utils.{max_long}
use python_thin_client.Connection.Protocol.{ProtocolContext, is_expiry_policy_supported}
use python_thin_client.Queries.CacheInfo.{CacheInfo, written_tx}
use python_thin_client.Queries.CacheInfo.RoundTrip.{AllFit, TxFits}
use python_thin_client.Queries.Perform.{Query, write_request}
use python_thin_client.Queries.Perform.Commands.{IsKnown, write_request_lem}
use python_thin_client.Queries.Perform.Params.{ParamHolds, param_depth}
use python_thin_client.Api.KeyValue.{
  PeekModes, peek_list, cache_put, cache_get, cache_get_all, cache_put_all, cache_contains_key,
  cache_contains_keys, cache_get_and_put, cache_get_and_replace, cache_get_and_remove,
  cache_put_if_absent, cache_get_and_put_if_absent, cache_replace, cache_replace_if_equals,
  cache_clear, cache_clear_key, cache_clear_keys, cache_remove_key, cache_remove_if_equals,
  cache_remove_keys, cache_remove_all, cache_get_size, cache_local_peek,
}
use python_thin_client.Api.KeyValue.Protocol.{
  Command, put, get, get_all, put_all, contains_key, contains_keys, get_and_put, get_and_replace,
  get_and_remove, put_if_absent, get_and_put_if_absent, replace, replace_if_equals, clear,
  clear_key, clear_keys, remove_key, remove_if_equals, remove_keys, remove_all, get_size,
  local_peek, operations, read_command,
}

-- A call of one of the functions.
pub data Call : Type 0 where
  call_put : Value → Value → Call
  call_get : Value → Call
  call_get_all : Items → Call
  call_put_all : Entries → Call
  call_contains_key : Value → Call
  call_contains_keys : Items → Call
  call_get_and_put : Value → Value → Call
  call_get_and_replace : Value → Value → Call
  call_get_and_remove : Value → Call
  call_put_if_absent : Value → Value → Call
  call_get_and_put_if_absent : Value → Value → Call
  call_replace : Value → Value → Call
  call_replace_if_equals : Value → Value → Value → Call
  call_clear : Call
  call_clear_key : Value → Call
  call_clear_keys : Items → Call
  call_remove_key : Value → Call
  call_remove_if_equals : Value → Value → Call
  call_remove_keys : Items → Call
  call_remove_all : Call
  call_get_size : PeekModes → Call
  call_local_peek : Value → PeekModes → Call

-- The query that it performs, and the command that it means.
abbrev pub query : Call → Query
query (call_put k v) = cache_put k v
query (call_get k) = cache_get k
query (call_get_all ks) = cache_get_all ks
query (call_put_all es) = cache_put_all es
query (call_contains_key k) = cache_contains_key k
query (call_contains_keys ks) = cache_contains_keys ks
query (call_get_and_put k v) = cache_get_and_put k v
query (call_get_and_replace k v) = cache_get_and_replace k v
query (call_get_and_remove k) = cache_get_and_remove k
query (call_put_if_absent k v) = cache_put_if_absent k v
query (call_get_and_put_if_absent k v) = cache_get_and_put_if_absent k v
query (call_replace k v) = cache_replace k v
query (call_replace_if_equals k s v) = cache_replace_if_equals k s v
query call_clear = cache_clear
query (call_clear_key k) = cache_clear_key k
query (call_clear_keys ks) = cache_clear_keys ks
query (call_remove_key k) = cache_remove_key k
query (call_remove_if_equals k s) = cache_remove_if_equals k s
query (call_remove_keys ks) = cache_remove_keys ks
query call_remove_all = cache_remove_all
query (call_get_size m) = cache_get_size m
query (call_local_peek k m) = cache_local_peek k m

abbrev pub meant : Call → Command
meant (call_put k v) = put k v
meant (call_get k) = get k
meant (call_get_all ks) = get_all ks
meant (call_put_all es) = put_all es
meant (call_contains_key k) = contains_key k
meant (call_contains_keys ks) = contains_keys ks
meant (call_get_and_put k v) = get_and_put k v
meant (call_get_and_replace k v) = get_and_replace k v
meant (call_get_and_remove k) = get_and_remove k
meant (call_put_if_absent k v) = put_if_absent k v
meant (call_get_and_put_if_absent k v) = get_and_put_if_absent k v
meant (call_replace k v) = replace k v
meant (call_replace_if_equals k s v) = replace_if_equals k s v
meant call_clear = clear
meant (call_clear_key k) = clear_key k
meant (call_clear_keys ks) = clear_keys ks
meant (call_remove_key k) = remove_key k
meant (call_remove_if_equals k s) = remove_if_equals k s
meant (call_remove_keys ks) = remove_keys ks
meant call_remove_all = remove_all
meant (call_get_size m) = get_size (peek_list m)
meant (call_local_peek k m) = local_peek k (peek_list m)

query-IsKnown : (call : Call) → IsKnown operations (query call) (meant call)
unfolding lookup eq_ℤ cache_put cache_get cache_get_all cache_put_all cache_contains_key
    cache_contains_keys cache_get_and_put cache_get_and_replace cache_get_and_remove
    cache_put_if_absent cache_get_and_put_if_absent cache_replace cache_replace_if_equals
    cache_clear cache_clear_key cache_clear_keys cache_remove_key cache_remove_if_equals
    cache_remove_keys cache_remove_all cache_get_size cache_local_peek
query-IsKnown (call_put k v) = (_, omega arith, refl, refl)
query-IsKnown (call_get k) = (_, omega arith, refl, refl)
query-IsKnown (call_get_all ks) = (_, omega arith, refl, refl)
query-IsKnown (call_put_all es) = (_, omega arith, refl, refl)
query-IsKnown (call_contains_key k) = (_, omega arith, refl, refl)
query-IsKnown (call_contains_keys ks) = (_, omega arith, refl, refl)
query-IsKnown (call_get_and_put k v) = (_, omega arith, refl, refl)
query-IsKnown (call_get_and_replace k v) = (_, omega arith, refl, refl)
query-IsKnown (call_get_and_remove k) = (_, omega arith, refl, refl)
query-IsKnown (call_put_if_absent k v) = (_, omega arith, refl, refl)
query-IsKnown (call_get_and_put_if_absent k v) = (_, omega arith, refl, refl)
query-IsKnown (call_replace k v) = (_, omega arith, refl, refl)
query-IsKnown (call_replace_if_equals k s v) = (_, omega arith, refl, refl)
query-IsKnown call_clear = (_, omega arith, refl, refl)
query-IsKnown (call_clear_key k) = (_, omega arith, refl, refl)
query-IsKnown (call_clear_keys ks) = (_, omega arith, refl, refl)
query-IsKnown (call_remove_key k) = (_, omega arith, refl, refl)
query-IsKnown (call_remove_if_equals k s) = (_, omega arith, refl, refl)
query-IsKnown (call_remove_keys ks) = (_, omega arith, refl, refl)
query-IsKnown call_remove_all = (_, omega arith, refl, refl)
query-IsKnown (call_get_size m) = (_, omega arith, refl, refl)
query-IsKnown (call_local_peek k m) = (_, omega arith, refl, refl)

-- Where the cluster has expiry policies, and the numbers and values fit the format, a server reads back
-- of each request the identifier, the cache with its expiry policy and the transaction of the context,
-- and the command that the function means, with its keys and values in their places.
pub write_request-read_command :
    (g : Binaries) (c : ProtocolContext) (tx : Option ℤ) (info : CacheInfo) (query_id : ℕ)
    (call : Call)
    → is_expiry_policy_supported c ≡ true
    → Fits 32 info.cache_id
    → AllFit info.expiry_policy
    → TxFits tx
    → query_id ≤ max_long
    → All (ParamHolds g) (query call).following
    → (packet : List ℕ) × (write_request g c tx info query_id (query call) ≡ ok packet)
      × ((rest : Stream) (fuel : ℕ)
          → All (λ p. param_depth p ≤ fuel) (query call).following
          → read_command g fuel (packet ++ rest)
            ≡ ok (
              (pos query_id, (info.cache_id, info.expiry_policy, written_tx c tx), meant call),
              rest,
            ))
write_request-read_command g c tx info query_id call =
    write_request_lem operations g query_id (query call) (meant call) c tx info (query-IsKnown call)
