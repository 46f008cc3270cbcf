-- ===== src/Caches/Runs.antt =====
-- The methods of a cache with a server that keeps to the protocol.
use python_thin_client.Prelude.{
  ℕ, ◌≡◌, refl, true, false, Option, none, some, List, [], ◌∷◌, ◌++◌, arith,
}
use python_thin_client.Prelude.Int.{ℤ, pos, negsuc}
use python_thin_client.Prelude.Numbers.{eq_ℤ}
use python_thin_client.Prelude.Outcome.{ok, raised, ◌>>=◌}
use python_thin_client.Datatypes.Wire.{Result}
use python_thin_client.Datatypes.Scalars.{string}
use python_thin_client.Datatypes.Values.{
  Value, null, scalar, object_array, wrapped, binary, nil, cons, Binaries, BinaryClass, write_value,
  is_compact,
}
use python_thin_client.Datatypes.Values.Elements.{ValueHolds}
use python_thin_client.Datatypes.Values.Depth.{depth}
use python_thin_client.Connection.Protocol.{
  ProtocolContext, is_expiry_policy_supported, is_status_flags_supported, at_least,
}
use python_thin_client.Queries.CacheInfo.{ExpiryPolicy, CacheInfo}
use python_thin_client.Queries.Responses.{post_process}
use python_thin_client.Queries.Responses.Headers.{success, failure}
use python_thin_client.Queries.Perform.{nothing, value}
use python_thin_client.Queries.Perform.Served.{Served}
use python_thin_client.Queries.Perform.Payloads.{payload}
use python_thin_client.Queries.Perform.Replies.{Reply, front, told}
use python_thin_client.Api.KeyValue.{cache_get}
use python_thin_client.Api.KeyValue.Protocol.{Command, get, read_command}
use python_thin_client.Api.KeyValue.Requests.{call_get, write_request-read_command}
use python_thin_client.Api.KeyValue.Replies.{Meaning}
use python_thin_client.Datatypes.Binary.{tc_complex_object, write_object}
use python_thin_client.Caches.{
  Exchange, TransactionContext, Client, unwrap_binary, get_node, tx_id_of,
}
use python_thin_client.Caches.Calls.{invoke, invoke-failure}
use python_thin_client.Caches.Unwrap.{Wraps, unwrap_binary-Wraps}

-- A class without fields, the one of its registry, and an object of it.
abbrev unit_class : BinaryClass
unit_class = record { type_name = 85 ∷ []; schema = [] }

abbrev binaries : Binaries
binaries = record {
  lower = λ t. t;
  approach = none;
  same_key = λ a b. false;
  registry = λ type_id schema_id. some unit_class;
}

abbrev unit_object : Value
unit_object = binary unit_class (pos 1) nil

abbrev written : List ℕ
written = tc_complex_object ∷ write_object (λ t. t) true (pos 1) (85 ∷ []) [] []

-- The object as a server sends it.
abbrev stored : Value
stored = wrapped written (pos 0)

-- A server that has one value for each key.
abbrev meaning : Meaning
meaning cache (get k) = value stored
meaning cache command = nothing

abbrev reply : ℤ → Reply
reply query_id = record { size = pos 40; query_id = query_id; affinity = some (pos 3, pos 1) }

abbrev answer : (ℤ × (ℤ × Option ExpiryPolicy × Option ℤ) × Command) × List ℕ → Result (List ℕ)
answer x = payload binaries (meaning x.0.1 x.0.2) >>= λ bytes.
    ok (front true (reply x.0.0) success ++ bytes)

abbrev server : Exchange
server packet = read_command binaries 3 packet >>= answer

abbrev context : ProtocolContext
context = record { version = (1, 7, 0); features = some 0 }

abbrev info : CacheInfo
info = record { cache_id = negsuc 40; expiry_policy = none }

-- The call is in a transaction on the connection to the server; other nodes do not answer.
abbrev client : Client
client = record {
  binaries = binaries;
  room = 3;
  protocol_context = context;
  get_best_node = λ key packet. ok [];
  query_id = 9;
  affinity_version = (pos 2, pos 8);
}

abbrev transaction : TransactionContext
transaction = record { tx_id = pos 6; conn = server }

abbrev key : Value
key = scalar (string (97 ∷ []))

-- A node that refuses every request.
abbrev refusing : Client
refusing = record client {
  get_best_node =
      λ key packet. ok (front true (reply (pos 9)) (failure (pos 1001) (110 ∷ 111 ∷ [])) ++ []);
}

invoke_failure_example :
    invoke none refusing info (call_get key) tt
    ≡ ok (
      raised (some (some (110 ∷ 111 ∷ []))),
      post_process (told true (reply (pos 9))) (pos 2, pos 8),
    )
unfolding is_expiry_policy_supported is_status_flags_supported at_least cache_get ValueHolds eq_ℤ
    tx_id_of get_node
invoke_failure_example =
    let (packet, wrote, _) =
      write_request-read_command binaries context none info 9 (call_get key) refl (omega arith) tt
        tt (omega arith) ((omega arith, (omega arith, tt)), tt) in
    invoke-failure none refusing info (call_get key) tt reply packet [] (110 ∷ 111 ∷ []) (pos 1001)
      wrote (omega arith, omega arith, (omega arith, omega arith))
      (omega arith, omega arith, (omega arith, (omega arith, tt))) refl refl

unwrap_example :
    unwrap_binary binaries 2
      (object_array (pos 4) (cons (wrapped (written ++ (1 ∷ [])) (pos 0)) (cons null nil)))
    ≡ ok (object_array (pos 4) (cons unit_object (cons null nil)))
unfolding Wraps ValueHolds write_value is_compact depth
unwrap_example =
    unwrap_binary-Wraps binaries 2
      (object_array (pos 4) (cons (wrapped (written ++ (1 ∷ [])) (pos 0)) (cons null nil)))
      (object_array (pos 4) (cons unit_object (cons null nil)))
      (
        cons unit_object (cons null nil),
        (
          unit_object,
          cons null nil,
          (written, 1 ∷ [], refl, refl, (omega arith, refl, tt), omega arith, refl, refl),
          (null, nil, refl, refl, refl),
          refl,
        ),
        refl,
      )
