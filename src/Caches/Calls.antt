-- ===== src/Caches/Calls.antt =====
-- The methods of `Cache` from the call to the value or the exception.
use python_thin_client.Prelude.{
  ℕ, zero, suc, ◌≡◌, refl, Bool, true, false, Option, none, some, List, ◌++◌,
}
use python_thin_client.Prelude.Int.{ℤ, pos, negsuc}
use python_thin_client.Prelude.Numbers.{eq_ℤ}
use python_thin_client.Prelude.Outcome.{ok, raised}
use python_thin_client.Datatypes.Values.{Value, Binaries}
use python_thin_client.Utils.{status_to_exception}
use python_thin_client.Connection.Protocol.{is_status_flags_supported}
use python_thin_client.Queries.CacheInfo.{CacheInfo}
use python_thin_client.Queries.Responses.{post_process}
use python_thin_client.Queries.Responses.Headers.{failure, AnswerFits}
use python_thin_client.Queries.Perform.{Returned, nothing, write_request, perform}
use python_thin_client.Queries.Perform.Replies.{Reply, ReplyFits, front, told, respond-failure}
use python_thin_client.Api.KeyValue.Requests.{
  Call, query, call_put, call_get, call_get_all, call_put_all, call_contains_key,
  call_contains_keys, call_get_and_put, call_get_and_replace, call_get_and_remove,
  call_put_if_absent, call_get_and_put_if_absent, call_replace, call_replace_if_equals, call_clear,
  call_clear_key, call_clear_keys, call_remove_key, call_remove_if_equals, call_remove_keys,
  call_remove_all, call_get_size, call_local_peek,
}
use python_thin_client.Caches.{
  Message, TransactionContext, Client, get_node, tx_id_of, unwrap_returned, unwrapped, ended, run,
  Method, get, put, get_all, put_all, replace, clear, clear_key, clear_keys, contains_key,
  contains_keys, get_and_put, get_and_put_if_absent, put_if_absent, get_and_remove, get_and_replace,
  remove_key, remove_keys, remove_all, remove_if_equals, replace_if_equals, get_size,
}

-- The method that makes a call, which there is of all but the peek into a node.
abbrev pub IsMethod : Call → Type 0
IsMethod (call_local_peek k m) = ⊥
IsMethod call = Unit {0}

module _ (tx : Option TransactionContext) (client : Client) (info : CacheInfo) where
  abbrev pub invoke : (call : Call) → IsMethod call → Method tx client info
  invoke (call_put k v) there = put tx client info k v
  invoke (call_get k) there = get tx client info k
  invoke (call_get_all ks) there = get_all tx client info ks
  invoke (call_put_all es) there = put_all tx client info es
  invoke (call_contains_key k) there = contains_key tx client info k
  invoke (call_contains_keys ks) there = contains_keys tx client info ks
  invoke (call_get_and_put k v) there = get_and_put tx client info k v
  invoke (call_get_and_replace k v) there = get_and_replace tx client info k v
  invoke (call_get_and_remove k) there = get_and_remove tx client info k
  invoke (call_put_if_absent k v) there = put_if_absent tx client info k v
  invoke (call_get_and_put_if_absent k v) there = get_and_put_if_absent tx client info k v
  invoke (call_replace k v) there = replace tx client info k v
  invoke (call_replace_if_equals k s v) there = replace_if_equals tx client info k s v
  invoke call_clear there = clear tx client info none
  invoke (call_clear_key k) there = clear_key tx client info k
  invoke (call_clear_keys ks) there = clear_keys tx client info ks
  invoke (call_remove_key k) there = remove_key tx client info k
  invoke (call_remove_if_equals k s) there = remove_if_equals tx client info k s
  invoke (call_remove_keys ks) there = remove_keys tx client info ks
  invoke call_remove_all there = remove_all tx client info
  invoke (call_get_size m) there = get_size tx client info m
  invoke (call_local_peek k modes) m = absurd m

-- Whether the method unwraps what it got, and the key that chooses the node.
abbrev pub unwraps : Call → Bool
unwraps (call_get k) = true
unwraps (call_get_all ks) = true
unwraps (call_get_and_put k v) = true
unwraps (call_get_and_replace k v) = true
unwraps (call_get_and_remove k) = true
unwraps (call_get_and_put_if_absent k v) = true
unwraps (call_replace k v) = true
unwraps (call_replace_if_equals k s v) = true
unwraps call = false

abbrev pub key_of : Call → Option Value
key_of (call_put k v) = some k
key_of (call_get k) = some k
key_of (call_contains_key k) = some k
key_of (call_get_and_put k v) = some k
key_of (call_get_and_replace k v) = some k
key_of (call_get_and_remove k) = some k
key_of (call_put_if_absent k v) = some k
key_of (call_get_and_put_if_absent k v) = some k
key_of (call_replace k v) = some k
key_of (call_replace_if_equals k s v) = some k
key_of (call_clear_key k) = some k
key_of (call_remove_key k) = some k
key_of (call_remove_if_equals k s) = some k
key_of (call_local_peek k m) = some k
key_of call = none

invoke-run :
    (tx : Option TransactionContext) (client : Client) (info : CacheInfo) (call : Call)
    (there : IsMethod call)
    → invoke tx client info call there
      ≡ run (unwraps call) tx client info (key_of call) (query call)
unfolding get put get_all put_all replace clear clear_key clear_keys contains_key contains_keys
    get_and_put get_and_put_if_absent put_if_absent get_and_remove get_and_replace remove_key
    remove_keys remove_all remove_if_equals replace_if_equals get_size
invoke-run tx client info (call_put k v) there = refl
invoke-run tx client info (call_get k) there = refl
invoke-run tx client info (call_get_all ks) there = refl
invoke-run tx client info (call_put_all es) there = refl
invoke-run tx client info (call_contains_key k) there = refl
invoke-run tx client info (call_contains_keys ks) there = refl
invoke-run tx client info (call_get_and_put k v) there = refl
invoke-run tx client info (call_get_and_replace k v) there = refl
invoke-run tx client info (call_get_and_remove k) there = refl
invoke-run tx client info (call_put_if_absent k v) there = refl
invoke-run tx client info (call_get_and_put_if_absent k v) there = refl
invoke-run tx client info (call_replace k v) there = refl
invoke-run tx client info (call_replace_if_equals k s v) there = refl
invoke-run tx client info call_clear there = refl
invoke-run tx client info (call_clear_key k) there = refl
invoke-run tx client info (call_clear_keys ks) there = refl
invoke-run tx client info (call_remove_key k) there = refl
invoke-run tx client info (call_remove_if_equals k s) there = refl
invoke-run tx client info (call_remove_keys ks) there = refl
invoke-run tx client info call_remove_all there = refl
invoke-run tx client info (call_get_size m) there = refl
invoke-run tx client info (call_local_peek k modes) there = absurd there

-- What the caller sees of the value of an answer.
abbrev pub Shows : Bool → Client → Returned → Returned → Type 0
Shows true client r shown = unwrap_returned client.binaries client.room r ≡ ok shown
Shows false client r shown = r ≡ shown

unwrapped_nothing :
    (b : Bool) (g : Binaries) (fuel : ℕ) (status : ℤ) (message : Message) (version : ℤ × ℤ)
    → unwrapped b g fuel (record { status = status; message = message; value = nothing }, version)
      ≡ ok (record { status = status; message = message; value = nothing }, version)
unfolding unwrapped unwrap_returned
unwrapped_nothing true g fuel status message version = refl
unwrapped_nothing false g fuel status message version = refl

status_to_exception_fails :
    (status : ℤ) (message : Message) (r : Returned)
    → eq_ℤ status (pos 0) ≡ false
    → status_to_exception (record { status = status; message = message; value = r })
      ≡ raised message
unfolding status_to_exception eq_ℤ
status_to_exception_fails (pos zero) message r bad = cc
status_to_exception_fails (pos (suc n)) message r bad = refl
status_to_exception_fails (negsuc n) message r bad = refl

module _ (tx : Option TransactionContext) (client : Client) (info : CacheInfo) (call : Call)
    (there : IsMethod call) (reply : ℤ → Reply) where
  -- To an answer of failure with a status other than 0, each method raises the `CacheError` with the
  -- message of the server, and the client has the later of the affinity versions.
  pub invoke-failure :
      (packet rest text : List ℕ) (status : ℤ)
      → write_request client.binaries client.protocol_context
          (tx_id_of tx)
          info
          client.query_id
          (query call)
        ≡ ok packet
      → ReplyFits (reply (pos client.query_id))
      → AnswerFits (failure status text)
      → eq_ℤ status (pos 0) ≡ false
      → get_node tx client (key_of call) packet
        ≡ ok (
            front
              (is_status_flags_supported client.protocol_context)
              (reply (pos client.query_id))
              (failure status text)
            ++ rest)
      → invoke tx client info call there
        ≡ ok (
          raised (some (some text)),
          post_process
              (told
                (is_status_flags_supported client.protocol_context)
                (reply (pos client.query_id)))
              client.affinity_version,
        )
  unfolding run ended perform
  invoke-failure packet rest text status wrote fits ha bad served =
      rw
        (
          invoke-run tx client info call there,
          wrote,
          respond-failure client.binaries (get_node tx client (key_of call)) client.room
              client.protocol_context client.affinity_version (query call).response_config packet
              (reply (pos client.query_id)) rest text status fits ha bad served,
          unwrapped_nothing (unwraps call) client.binaries client.room status (some (some text)) _,
          status_to_exception_fails status (some (some text)) nothing bad,
        )
        refl
