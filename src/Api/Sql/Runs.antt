-- ===== src/Api/Sql/Runs.antt =====
-- An SQL query with an argument, and a page of two rows.
use python_thin_client.Prelude.{
  ℕ, ◌≤◌, ◌≡◌, refl, true, false, false, none, some, List, [], ◌∷◌, ◌++◌, All, arith,
}
use python_thin_client.Prelude.Int.{pos, negsuc}
use python_thin_client.Prelude.Outcome.{ok, ◌>>=◌}
use python_thin_client.Datatypes.Wire.{Stream, Result}
use python_thin_client.Datatypes.Scalars.{number, int}
use python_thin_client.Datatypes.Values.{null, scalar, Items, nil, cons, Binaries}
use python_thin_client.Datatypes.Values.Elements.{ValueHolds}
use python_thin_client.Connection.Protocol.{ProtocolContext, is_expiry_policy_supported, at_least}
use python_thin_client.Queries.CacheInfo.{CacheInfo, written_tx}
use python_thin_client.Queries.Responses.Headers.{success}
use python_thin_client.Queries.Perform.{rows, write_request}
use python_thin_client.Queries.Perform.Params.{param_depth}
use python_thin_client.Queries.Perform.Commands.{read_command}
use python_thin_client.Queries.Perform.Served.{Served}
use python_thin_client.Queries.Perform.Payloads.{payload}
use python_thin_client.Queries.Perform.Replies.{Reply, front}
use python_thin_client.Api.Sql.{text, arguments, sql_fields}
use python_thin_client.Api.Sql.Protocol.{searches}
use python_thin_client.Api.Sql.Requests.{
  RowsCall, call_sql_fields, rows_query, searched, rows_query-read_command,
}

abbrev context : ProtocolContext
context = record { version = (1, 7, 0); features = some 0 }

abbrev info : CacheInfo
info = record { cache_id = negsuc 40; expiry_policy = none }

abbrev binaries : Binaries
binaries = record {
  lower = λ t. t;
  approach = none;
  same_key = λ a b. false;
  registry = λ type_id schema_id. none;
}

abbrev call : RowsCall
call = call_sql_fields (record {
  query_str = some (83 ∷ []);
  page_size = pos 2;
  query_args = some (cons (scalar (number int (pos 5))) nil);
  schema = none;
  statement_type = pos 1;
  distributed_joins = false;
  local = true;
  replicated_only = false;
  enforce_join_order = true;
  collocated = false;
  lazy = true;
  include_field_names = true;
  max_rows = negsuc 0;
  timeout = pos 0;
})

sql_fields_example :
    (packet : List ℕ) × (write_request binaries context none info 9 (rows_query call) ≡ ok packet)
    × ((rest : Stream) (fuel : ℕ)
        → All (λ p. param_depth p ≤ fuel) (rows_query call).following
        → read_command searches binaries fuel (packet ++ rest)
          ≡ ok (
            (pos 9, (info.cache_id, info.expiry_policy, written_tx context none), searched call),
            rest,
          ))
unfolding is_expiry_policy_supported at_least sql_fields text arguments ValueHolds
sql_fields_example =
    rows_query-read_command binaries context none info 9 call refl (omega arith) tt tt (omega arith)
      (
        tt,
        (
          (omega arith, omega arith),
          (
            (omega arith, omega arith),
            (
              (omega arith, (omega arith, tt)),
              (
                (omega arith, (omega arith, tt)),
                (
                  (omega arith, omega arith),
                  (tt, (tt, (tt, (tt, (tt, (tt, ((omega arith, omega arith), (tt, tt)))))))),
                ),
              ),
            ),
          ),
        ),
      )

abbrev next_rows : List Items
next_rows = cons (scalar (number int (pos 1))) (cons null nil) ∷ cons null (cons null nil) ∷ []

abbrev reply : Reply
reply = record { size = pos 40; query_id = pos 9; affinity = none }

abbrev exchange : List ℕ → Result (List ℕ)
exchange packet =
    payload binaries (rows next_rows true) >>= λ bytes. ok (front true reply success ++ bytes)
