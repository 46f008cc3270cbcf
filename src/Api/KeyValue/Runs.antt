-- ===== src/Api/KeyValue/Runs.antt =====
-- A request to replace a value, as a server reads it.
use python_thin_client.Prelude.{
  false, ℕ, ◌≤◌, ◌≡◌, refl, none, some, List, [], ◌∷◌, ◌++◌, All, arith,
}
use python_thin_client.Prelude.Int.{pos, negsuc}
use python_thin_client.Prelude.Outcome.{ok}
use python_thin_client.Datatypes.Wire.{Stream}
use python_thin_client.Datatypes.Scalars.{number, string, int}
use python_thin_client.Datatypes.Values.{Value, null, scalar, collection, nil, cons, Binaries}
use python_thin_client.Datatypes.Values.Elements.{ValueHolds}
use python_thin_client.Connection.Protocol.{ProtocolContext, is_expiry_policy_supported, at_least}
use python_thin_client.Queries.CacheInfo.{CacheInfo, written_tx}
use python_thin_client.Queries.Perform.{write_request}
use python_thin_client.Queries.Perform.Params.{param_depth}
use python_thin_client.Api.KeyValue.{cache_replace_if_equals}
use python_thin_client.Api.KeyValue.Protocol.{replace_if_equals, read_command}
use python_thin_client.Api.KeyValue.Requests.{
  Call, call_replace_if_equals, query, write_request-read_command,
}

abbrev context : ProtocolContext
context = record { version = (1, 7, 0); features = some 0 }

abbrev info : CacheInfo
info = record {
  cache_id = negsuc 40;
  expiry_policy = some (record { create = pos 5; update = negsuc 0; access = negsuc 1 });
}

abbrev binaries : Binaries
binaries = record {
  lower = λ t. t;
  approach = none;
  same_key = λ a b. false;
  registry = λ type_id schema_id. none;
}

abbrev key : Value
key = scalar (number int (pos 5))

abbrev sample : Value
sample = scalar (string (97 ∷ []))

abbrev item : Value
item = collection (pos 1) (cons null (cons key nil))

abbrev call : Call
call = call_replace_if_equals key sample item

request_example :
    (packet : List ℕ) × (write_request binaries context (some (pos 3)) info 9 (query call)
      ≡ ok packet)
    × ((rest : Stream) (fuel : ℕ)
        → All (λ p. param_depth p ≤ fuel) (query call).following
        → read_command binaries fuel (packet ++ rest)
          ≡ ok (
            (
              pos 9,
              (info.cache_id, info.expiry_policy, written_tx context (some (pos 3))),
              replace_if_equals key sample item,
            ),
            rest,
          ))
unfolding is_expiry_policy_supported at_least cache_replace_if_equals ValueHolds
request_example =
    write_request-read_command binaries context (some (pos 3)) info 9 call refl (omega arith)
      (omega arith, omega arith, omega arith) (omega arith) (omega arith)
      (
        omega arith,
        (
          (omega arith, (omega arith, tt)),
          ((omega arith, omega arith, (tt, (omega arith, tt))), tt),
        ),
      )
