-- ===== src/Api/Sql/Requests.antt =====
-- The functions of api/sql.py: what each call means, and what a server reads of its request.
use python_thin_client.Prelude.{ℕ, ◌≤◌, ◌≡◌, refl, true, Bool, Option, List, ◌++◌, All, arith}
use python_thin_client.Prelude.Int.{ℤ, pos}
use python_thin_client.Prelude.Numbers.{eq_ℤ}
use python_thin_client.Prelude.Outcome.{ok}
use python_thin_client.Prelude.Dict.{lookup, int_key}
use python_thin_client.Datatypes.Wire.{Stream}
use python_thin_client.Datatypes.Scalars.{Fits, real_array, float}
use python_thin_client.Datatypes.Values.{null, scalar, Items, Binaries}
use python_thin_client.Utils.{max_long}
use python_thin_client.Connection.Protocol.{ProtocolContext, is_expiry_policy_supported}
use python_thin_client.Queries.CacheInfo.{CacheInfo, written_tx}
use python_thin_client.Queries.CacheInfo.RoundTrip.{AllFit, TxFits}
use python_thin_client.Queries.Perform.{Query, write_request, write_plain_request}
use python_thin_client.Queries.Perform.Params.{ParamHolds, param_depth}
use python_thin_client.Queries.Perform.Commands.{
  IsKnown, read_command, read_plain_command, write_request_lem, write_plain_request_lem,
}
use python_thin_client.Api.Sql.{
  text, arguments, scan, scan_cursor_get_page, sql, sql_cursor_get_page, FieldsQuery, sql_fields,
  sql_fields_cursor_get_page, vector, vector_cursor_get_page, resource_close,
}
use python_thin_client.Api.Sql.Protocol.{
  Search, scanning, selecting, selecting_fields, finding, searches, Paging, scan_page, sql_page,
  fields_page, vector_page, closing, pagings,
}

-- The calls for the rows of a cache, their queries, and what they mean.
pub data RowsCall : Type 0 where
  call_scan : ℤ → ℤ → Bool → RowsCall
  call_sql :
      Option (List ℕ) → Option (List ℕ) → ℤ → Option Items → Bool → Bool → Bool → ℤ → RowsCall
  call_sql_fields : FieldsQuery → RowsCall
  call_vector : ℤ → Option (List ℕ) → Option (List ℕ) → List ℕ → ℤ → ℕ → RowsCall

abbrev pub rows_query : RowsCall → Query
rows_query (call_scan n p l) = scan n p l
rows_query (call_sql t q n a d r l m) = sql t q n a d r l m
rows_query (call_sql_fields q) = sql_fields q
rows_query (call_vector n t f c k h) = vector n t f c k h

abbrev pub searched : RowsCall → Search
searched (call_scan n p l) =
    scanning (record { filter = null; page_size = n; partition = p; local = l })
searched (call_sql t q n a d r l m) = selecting (record {
  table = text t;
  statement = text q;
  args = arguments a;
  distributed_joins = d;
  local = l;
  replicated_only = r;
  page_size = n;
  timeout = m;
})
searched (call_sql_fields q) = selecting_fields (record {
  schema = text q.schema;
  page_size = q.page_size;
  max_rows = q.max_rows;
  statement = text q.query_str;
  args = arguments q.query_args;
  statement_type = q.statement_type;
  distributed_joins = q.distributed_joins;
  local = q.local;
  replicated_only = q.replicated_only;
  enforce_join_order = q.enforce_join_order;
  collocated = q.collocated;
  lazy = q.lazy;
  timeout = q.timeout;
  include_field_names = q.include_field_names;
})
searched (call_vector n t f c k h) = finding (record {
  page_size = n;
  type_name = text t;
  vector_field = text f;
  clause = scalar (real_array float c);
  nearest = k;
  threshold = h;
})

rows_query-IsKnown : (call : RowsCall) → IsKnown searches (rows_query call) (searched call)
unfolding lookup eq_ℤ scan sql sql_fields vector
rows_query-IsKnown (call_scan n p l) = (_, omega arith, refl, refl)
rows_query-IsKnown (call_sql t q n a d r l m) = (_, omega arith, refl, refl)
rows_query-IsKnown (call_sql_fields q) = (_, omega arith, refl, refl)
rows_query-IsKnown (call_vector n t f c k h) = (_, omega arith, refl, refl)

-- The calls for the pages of a cursor, by its kind.
pub data CursorCall : Type 0 where
  call_scan_page call_sql_page call_vector_page call_close : ℤ → CursorCall
  call_fields_page : ℤ → ℕ → CursorCall

abbrev pub cursor_query : CursorCall → Query
cursor_query (call_scan_page cursor) = scan_cursor_get_page cursor
cursor_query (call_sql_page cursor) = sql_cursor_get_page cursor
cursor_query (call_vector_page cursor) = vector_cursor_get_page cursor
cursor_query (call_close cursor) = resource_close cursor
cursor_query (call_fields_page cursor n) = sql_fields_cursor_get_page cursor n

abbrev pub paged : CursorCall → Paging
paged (call_scan_page cursor) = scan_page cursor
paged (call_sql_page cursor) = sql_page cursor
paged (call_vector_page cursor) = vector_page cursor
paged (call_close cursor) = closing cursor
paged (call_fields_page cursor n) = fields_page cursor

cursor_query-IsKnown : (call : CursorCall) → IsKnown pagings (cursor_query call) (paged call)
unfolding lookup eq_ℤ scan_cursor_get_page sql_cursor_get_page vector_cursor_get_page resource_close
    sql_fields_cursor_get_page
cursor_query-IsKnown (call_scan_page cursor) = (_, omega arith, refl, refl)
cursor_query-IsKnown (call_sql_page cursor) = (_, omega arith, refl, refl)
cursor_query-IsKnown (call_vector_page cursor) = (_, omega arith, refl, refl)
cursor_query-IsKnown (call_close cursor) = (_, omega arith, refl, refl)
cursor_query-IsKnown (call_fields_page cursor n) = (_, omega arith, refl, refl)

-- Where the cluster has expiry policies, and the numbers and values fit the format, a server reads back
-- of each query for rows its identifier, the cache with its policy and the transaction of the context, and
-- each parameter by its name in the protocol.
pub rows_query-read_command :
    (g : Binaries) (c : ProtocolContext) (tx : Option ℤ) (info : CacheInfo) (query_id : ℕ)
    (call : RowsCall)
    → is_expiry_policy_supported c ≡ true
    → Fits 32 info.cache_id
    → AllFit info.expiry_policy
    → TxFits tx
    → query_id ≤ max_long
    → All (ParamHolds g) (rows_query call).following
    → (packet : List ℕ) × (write_request g c tx info query_id (rows_query call) ≡ ok packet)
      × ((rest : Stream) (fuel : ℕ)
          → All (λ p. param_depth p ≤ fuel) (rows_query call).following
          → read_command searches g fuel (packet ++ rest)
            ≡ ok (
              (pos query_id, (info.cache_id, info.expiry_policy, written_tx c tx), searched call),
              rest,
            ))
rows_query-read_command g c tx info query_id call =
    write_request_lem searches g query_id (rows_query call) (searched call) c tx info
      (rows_query-IsKnown call)

-- Of each query for the next page, or for the closing of a cursor, a server reads back its identifier,
-- the kind of the cursor, and the cursor.
pub cursor_query-read_plain_command :
    (g : Binaries) (query_id : ℕ) (call : CursorCall)
    → query_id ≤ max_long
    → All (ParamHolds g) (cursor_query call).following
    → (packet : List ℕ) × (write_plain_request g query_id (cursor_query call) ≡ ok packet)
      × ((rest : Stream) (fuel : ℕ)
          → All (λ p. param_depth p ≤ fuel) (cursor_query call).following
          → read_plain_command pagings g fuel (packet ++ rest)
            ≡ ok ((pos query_id, paged call), rest))
cursor_query-read_plain_command g query_id call =
    write_plain_request_lem pagings g query_id (cursor_query call) (paged call)
      (cursor_query-IsKnown call)
