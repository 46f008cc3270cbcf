-- ===== src/Queries/Perform.antt =====
-- `Query.perform` of pygridgain/queries/query.py for the queries of api/key_value.py and
-- api/sql.py: a request of fields behind a header, the exchange with a server, and the result of `Response` (response.py).
pub mod Params
pub mod Commands
pub mod Served
pub mod Payloads
pub mod Replies
use python_thin_client.Prelude.{
  ℕ, zero, suc, ◌+◌, Bool, true, false, Option, none, some, List, [], ◌∷◌, ◌++◌, leb, length,
  if◌then◌else◌,
}
use python_thin_client.Prelude.Int.{ℤ, pos, negsuc}
use python_thin_client.Prelude.Numbers.{eq_ℤ}
use python_thin_client.Prelude.Outcome.{Outcome, ok, raised, ◌>>=◌}
use python_thin_client.Datatypes.Wire.{
  Stream, Result, value_error, attribute_error, parse_error, field,
}
use python_thin_client.Datatypes.Scalars.{
  Scalar, float, get_int, pack_nat, pack_int, pack_bool, pack_real, write_array,
}
use python_thin_client.Datatypes.Scalars.Parse.{read_bool, read_array, strings}
use python_thin_client.Datatypes.Values.{
  Value, Items, Entries, Binaries, count, count_entries, write_value, write_items, write_entries,
  read_entries, read_items, read_nullable, read_object, read_value, is_plain, plain_items,
  plain_entries, dict_of, end,
}
use python_thin_client.Utils.{ApiResult}
use python_thin_client.Connection.Protocol.{ProtocolContext, is_status_flags_supported}
use python_thin_client.Queries.{write_query}
use python_thin_client.Queries.CacheInfo.{CacheInfo, write_cache_info}
use python_thin_client.Queries.Responses.{Response, read_header, post_process}

-- A field of `following` with its value: an object of the class of a hint or of its own
-- (`AnyDataObject`), or the payload of an `AnyDataArray`, a `Map`, a `ByteArray`, an integer of n bytes,
-- a `Bool` or a `Float`.
pub data Param : Type 0 where
  object : Value → Param
  objects : Items → Param
  pairs : Entries → Param
  octets : List ℕ → Param
  integer : ℕ → ℤ → Param
  flag : Bool → Param
  float_bits : ℕ → Param

-- What a successful answer has: one field, or a page with its cursor or without, rows of n columns, or
-- the answer of an SQL query (`SQLResponse`) with the names of the columns or their number.
pub data FieldClass : Type 0 where
  any_data map_class bool_class long_class : FieldClass
  page_class : Bool → FieldClass
  rows_class : ℕ → FieldClass
  sql_class : Bool → FieldClass

-- A query, without the description of the cache where its first field is one.
pub record Query : Type 0 where
  pub op_code : ℕ
  pub following : List Param
  pub response_config : Option FieldClass

-- The columns of an SQL answer.
pub data Columns : Type 0 where
  field_names : List (Option Scalar) → Columns
  field_count : ℤ → Columns

-- The value of a result.
pub data Returned : Type 0 where
  nothing : Returned
  value : Value → Returned
  map : Entries → Returned
  truth : Bool → Returned
  number : ℤ → Returned
  page : Option ℤ → Entries → Bool → Returned
  rows : List Items → Bool → Returned
  sql_rows : ℤ → Columns → List Items → Bool → Returned

-- the columns of each row, and range(n)
unfoldable pub range_of : ℤ → ℕ
range_of (pos n) = n
range_of (negsuc n) = 0

unfoldable pub width : Columns → ℕ
unfolding range_of
width (field_names names) = length names
width (field_count n) = range_of n

-- an element of `bytearray(value)`
unfoldable pub pack_byte : ℕ → Result (List ℕ)
pack_byte b = if leb b 255 then ok (b ∷ []) else raised value_error

module _ (g : Binaries) where
  unfoldable pub write_param : Param → Result (List ℕ)
  unfolding pack_nat pack_byte pack_int pack_bool pack_real write_array write_value write_items
      write_entries
  write_param (object v) = write_value g v
  write_param (objects xs) = do
    size ← pack_nat 4 (count xs)
    body ← write_items g xs
    ok (size ++ body)
  write_param (pairs es) = do
    size ← pack_nat 4 (count_entries es)
    body ← write_entries g es
    ok (size ++ body)
  write_param (octets bs) = write_array pack_byte bs
  write_param (integer n v) = pack_int n v
  write_param (flag b) = pack_bool b
  write_param (float_bits v) = pack_real float v

  unfoldable pub write_params : List Param → Result (List ℕ)
  unfolding write_param
  write_params [] = ok []
  write_params (p ∷ ps) = do head ← write_param p; tail ← write_params ps; ok (head ++ tail)

  -- The request, where `get_tx_id` gave the transaction of the context.
  unfoldable pub write_request :
      ProtocolContext → Option ℤ → CacheInfo → ℕ → Query → Result (List ℕ)
  unfolding write_query write_cache_info write_params
  write_request c tx_id info query_id q = write_query q.op_code query_id (do
    info_bytes ← write_cache_info c tx_id info
    param_bytes ← write_params q.following
    ok (info_bytes ++ param_bytes))

  -- The same for a query that is about no cache.
  unfoldable pub write_plain_request : ℕ → Query → Result (List ℕ)
  unfolding write_query write_params
  write_plain_request query_id q = write_query q.op_code query_id (write_params q.following)

  -- `to_python` of what was parsed has no client, without which binary objects raise.
  unfoldable pub without_client {ℓ} : {A : Type ℓ} → Bool → A × Stream → Result (A × Stream)
  without_client plain r = if plain then ok r else raised parse_error

  unfoldable pub read_answer : ℕ → Stream → Result (Value × Stream)
  unfolding read_value is_plain without_client
  read_answer fuel s = do (v, s1) ← read_value g fuel s; without_client (is_plain v) (v, s1)

  -- n rows of the same number of columns
  unfoldable pub read_rows : ℕ → ℕ → ℕ → Stream → Result (List Items × Stream)
  unfolding read_items read_object plain_items without_client
  read_rows fuel columns zero s = ok ([], s)
  read_rows fuel columns (suc n) s = do
    (x, s1) ← read_items g (read_object g fuel) columns s
    (row, s2) ← without_client (plain_items x) (x, s1)
    (others, s3) ← read_rows fuel columns n s2
    ok (row ∷ others, s3)

  -- a `Map`
  unfoldable pub read_map : ℕ → Stream → Result (Entries × Stream)
  unfolding read_entries read_object plain_entries dict_of without_client
  read_map fuel s = do
    (n, s1) ← field 4 s
    (es, s2) ← read_entries g (read_object g fuel) n s1
    (fs, s3) ← without_client (plain_entries es) (es, s2)
    d ← dict_of g end fs
    ok (d, s3)

  unfoldable pub read_cursor : Bool → Stream → Result (Option ℤ × Stream)
  unfolding get_int
  read_cursor false s = ok (none, s)
  read_cursor true s = do (cursor, s1) ← get_int 8 s; ok (some cursor, s1)

  unfoldable pub read_columns : Bool → Stream → Result (Columns × Stream)
  unfolding get_int read_array read_nullable
  read_columns true s = do
    (names, s1) ← read_array (read_nullable strings) s
    ok (field_names names, s1)
  read_columns false s = do (n, s1) ← get_int 4 s; ok (field_count n, s1)

  -- `_parse_success` and `to_python`, where one field is taken out of the result by its name
  -- (`__post_process_value_by_key`) and a row is the list of its values
  -- (`__post_process_sql_fields_cursor`), with fuel for the depth of the values
  unfoldable pub read_returned : ℕ → Option FieldClass → Stream → Result (Returned × Stream)
  unfolding read_answer read_map read_rows read_cursor read_columns read_bool get_int width range_of
  read_returned fuel none s = ok (nothing, s)
  read_returned fuel (some any_data) s = do (v, s1) ← read_answer fuel s; ok (value v, s1)
  read_returned fuel (some map_class) s = do (es, s1) ← read_map fuel s; ok (map es, s1)
  read_returned fuel (some bool_class) s = do (b, s1) ← read_bool s; ok (truth b, s1)
  read_returned fuel (some long_class) s = do (n, s1) ← get_int 8 s; ok (number n, s1)
  read_returned fuel (some (page_class has_cursor)) s = do
    (cursor, s1) ← read_cursor has_cursor s
    (es, s2) ← read_map fuel s1
    (more, s3) ← read_bool s2
    ok (page cursor es more, s3)
  read_returned fuel (some (rows_class columns)) s = do
    (n, s1) ← field 4 s
    (data_rows, s2) ← read_rows fuel columns n s1
    (more, s3) ← read_bool s2
    ok (rows data_rows more, s3)
  read_returned fuel (some (sql_class include_field_names)) s = do
    (cursor, s1) ← get_int 8 s
    (columns, s2) ← read_columns include_field_names s1
    (row_count, s3) ← get_int 4 s2
    (data_rows, s4) ← read_rows fuel (width columns) (range_of row_count) s3
    (more, s5) ← read_bool s4
    ok (sql_rows cursor columns data_rows more, s5)

  -- The result of a response; without a message of the server it is 'Success'. The status of an error that is 0 lets `to_python` look for a field that
  -- was not parsed.
  unfoldable pub api_result :
      ℕ
      → Option FieldClass
      → Response
      → Stream
      → Result (ApiResult (Option (Option (List ℕ))) Returned)
  unfolding read_returned
  api_result fuel config r s = elim r.message [
    | some text ↦ elim config [
      | none ↦ ok (record { status = r.status; message = r.message; value = nothing })
      | some c ↦
          (if eq_ℤ r.status (pos 0)
            then raised attribute_error
            else ok (record { status = r.status; message = r.message; value = nothing }))
    ]
    | none ↦
        (read_returned fuel config s >>= λ x.
        ok (record { status = r.status; message = r.message; value = x.0 }))
  ]

  -- The rest of `perform` once the request is written: the result, and the affinity version of the
  -- client then. What the server answers to the bytes of a request is given.
  unfoldable pub respond :
      (List ℕ → Result (List ℕ))
      → ℕ
      → ProtocolContext
      → ℤ × ℤ
      → Option FieldClass
      → List ℕ
      → Result (ApiResult (Option (Option (List ℕ))) Returned × (ℤ × ℤ))
  unfolding read_header api_result post_process
  respond exchange fuel c version config request = do
    reply ← exchange request
    (r, s) ← read_header (is_status_flags_supported c) reply
    result ← api_result fuel config r s
    ok (result, post_process r.affinity version)

  -- `perform` of a query about a cache
  unfoldable pub perform :
      (List ℕ → Result (List ℕ))
      → ℕ
      → ProtocolContext
      → Option ℤ
      → CacheInfo
      → ℕ
      → ℤ × ℤ
      → Query
      → Result (ApiResult (Option (Option (List ℕ))) Returned × (ℤ × ℤ))
  unfolding write_request respond
  perform exchange fuel c tx_id info query_id version q = do
    request ← write_request c tx_id info query_id q
    respond exchange fuel c version q.response_config request

  -- and of one about a cursor
  unfoldable pub perform_plain :
      (List ℕ → Result (List ℕ))
      → ℕ
      → ProtocolContext
      → ℕ
      → ℤ × ℤ
      → Query
      → Result (ApiResult (Option (Option (List ℕ))) Returned × (ℤ × ℤ))
  unfolding write_plain_request respond
  perform_plain exchange fuel c query_id version q = do
    request ← write_plain_request query_id q
    respond exchange fuel c version q.response_config request
