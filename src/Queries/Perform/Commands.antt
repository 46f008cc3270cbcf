-- ===== src/Queries/Perform/Commands.antt =====
-- How a server reads a request: by the operation of its header, a table of the protocol tells the classes
-- of the fields and what command they make.
use python_thin_client.Prelude.{
  ℕ, ◌+◌, ◌-◌, ◌^◌, ◌≤◌, ◌<◌, ◌≡◌, refl, true, Option, none, some, List, ◌++◌, length, All, arith,
  append_assoc,
}
use python_thin_client.Prelude.Int.{ℤ, pos}
use python_thin_client.Prelude.Outcome.{ok, raised, ◌>>=◌}
use python_thin_client.Prelude.Dict.{Dict, lookup, int_key}
use python_thin_client.Datatypes.Wire.{Stream, Result, parse_error}
use python_thin_client.Datatypes.Scalars.{Fits, put_int}
use python_thin_client.Datatypes.Scalars.Laws.{get_int-put_int, get_int_any}
use python_thin_client.Datatypes.Values.{Binaries}
use python_thin_client.Utils.{max_long}
use python_thin_client.Connection.Protocol.{ProtocolContext, is_expiry_policy_supported}
use python_thin_client.Queries.{header_size, write_query}
use python_thin_client.Queries.Requests.{read_request}
use python_thin_client.Queries.CacheInfo.{ExpiryPolicy, CacheInfo, written_tx}
use python_thin_client.Queries.CacheInfo.RoundTrip.{
  AllFit, TxFits, read_cache_info, write_cache_info_lem,
}
use python_thin_client.Queries.Perform.{Param, Query, write_request, write_plain_request}
use python_thin_client.Queries.Perform.Params.{
  ParamClass, ParamHolds, param_depth, param_classes, params_trip, read_params,
}

-- The operations of a protocol by their codes: the fields in order, and the command.
abbrev pub Operations : Type 0 → Type 0
Operations C = Dict ℤ (List ParamClass × (List Param → Option C))

abbrev or_fail : {A : Type 0} → Option A → Result A
or_fail none = raised parse_error
or_fail (some x) = ok x

-- What a server reads of the fields.
abbrev read_operation :
    {C : Type 0} → Operations C → Binaries → ℕ → ℤ → Stream → Result (C × Stream)
read_operation operations g fuel op_code s = do
  operation ← or_fail (lookup op_code operations)
  (ps, s1) ← read_params g fuel operation.0 s
  command ← or_fail (operation.1 ps)
  ok (command, s1)

-- Of a request about a cache: its identifier, the cache with its policy and transaction, and the command.
abbrev pub read_command :
    {C : Type 0}
    → Operations C
    → Binaries
    → ℕ
    → Stream
    → Result ((ℤ × (ℤ × Option ExpiryPolicy × Option ℤ) × C) × Stream)
read_command operations g fuel s = do
  (head, s1) ← read_request s
  (info, s2) ← read_cache_info s1
  (command, s3) ← read_operation operations g fuel head.1 s2
  ok ((head.2, info, command), s3)

-- Of any other request.
abbrev pub read_plain_command :
    {C : Type 0} → Operations C → Binaries → ℕ → Stream → Result ((ℤ × C) × Stream)
read_plain_command operations g fuel s = do
  (head, s1) ← read_request s
  (command, s2) ← read_operation operations g fuel head.1 s1
  ok ((head.2, command), s2)

-- The code of a query stands for the fields that it has, and for a command.
abbrev pub IsKnown : {C : Type 0} → Operations C → Query → C → Type 0
IsKnown {C = C} operations q command =
    (build : List Param → Option C) × (q.op_code < 2 ^ 15)
    × (lookup (pos q.op_code) operations ≡ some (param_classes q.following, build))
    × (build q.following ≡ some command)

module _ {C : Type 0} (operations : Operations C) (g : Binaries) (query_id : ℕ) (q : Query)
    (command : C) where
  -- The request of a query whose code the table has is read as the command that it stands for.
  pub write_request_lem :
      (c : ProtocolContext) (tx : Option ℤ) (info : CacheInfo)
      → IsKnown operations q command
      → is_expiry_policy_supported c ≡ true
      → Fits 32 info.cache_id
      → AllFit info.expiry_policy
      → TxFits tx
      → query_id ≤ max_long
      → All (ParamHolds g) q.following
      → (packet : List ℕ) × (write_request g c tx info query_id q ≡ ok packet)
        × ((rest : Stream) (fuel : ℕ)
            → All (λ p. param_depth p ≤ fuel) q.following
            → read_command operations g fuel (packet ++ rest)
              ≡ ok (
                (pos query_id, (info.cache_id, info.expiry_policy, written_tx c tx), command),
                rest,
              ))
  unfolding write_request write_query
  write_request_lem c tx info (build, small, known, built) supported hi hp ht hq holds =
      let (params, wrote, back) = params_trip g q.following holds in
      let (cached, described, read_info) = write_cache_info_lem c tx info supported hi hp ht in
      let size = header_size + length (cached ++ params) - 4 in
      (
        put_int 4 (pos size)
            ++ (put_int 2 (pos q.op_code) ++ (put_int 8 (pos query_id) ++ (cached ++ params))),
        rw (described, wrote) refl,
        λ rest fuel deep.
            rw
              (
                append_assoc,
                get_int_any 4 (pos size),
                append_assoc,
                get_int-put_int 2 (pos q.op_code) _ (omega arith) (omega (arith, small)),
                append_assoc,
                get_int-put_int 8 (pos query_id) _ (omega arith) (omega (arith, hq)),
                append_assoc,
                read_info (params ++ rest),
                known,
                back rest fuel deep,
                built,
              )
              refl,
      )

  pub write_plain_request_lem :
      IsKnown operations q command
      → query_id ≤ max_long
      → All (ParamHolds g) q.following
      → (packet : List ℕ) × (write_plain_request g query_id q ≡ ok packet)
        × ((rest : Stream) (fuel : ℕ)
            → All (λ p. param_depth p ≤ fuel) q.following
            → read_plain_command operations g fuel (packet ++ rest)
              ≡ ok ((pos query_id, command), rest))
  unfolding write_plain_request write_query
  write_plain_request_lem (build, small, known, built) hq holds =
      let (params, wrote, back) = params_trip g q.following holds in
      let size = header_size + length params - 4 in
      (
        put_int 4 (pos size) ++ (put_int 2 (pos q.op_code) ++ (put_int 8 (pos query_id) ++ params)),
        rw wrote refl,
        λ rest fuel deep.
            rw
              (
                append_assoc,
                get_int_any 4 (pos size),
                append_assoc,
                get_int-put_int 2 (pos q.op_code) _ (omega arith) (omega (arith, small)),
                append_assoc,
                get_int-put_int 8 (pos query_id) _ (omega arith) (omega (arith, hq)),
                known,
                back rest fuel deep,
                built,
              )
              refl,
      )
