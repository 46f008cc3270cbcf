-- ===== src/Api/Sql.antt =====
-- pygridgain/api/sql.py: the query that each function performs. A text is its UTF-8 bytes, or None.
pub mod Protocol
pub mod Requests
pub mod Pages
mod Runs
use python_thin_client.Prelude.{ℕ, Bool, true, false, Option, none, some, List, [], ◌∷◌}
use python_thin_client.Prelude.Int.{ℤ, pos}
use python_thin_client.Datatypes.Scalars.{string, real_array, float}
use python_thin_client.Datatypes.Values.{Value, null, scalar, Items, nil}
use python_thin_client.Queries.Perform.{
  Param, object, objects, integer, flag, float_bits, FieldClass, page_class, rows_class, sql_class,
  Query,
}

abbrev pub op_resource_close : ℕ
op_resource_close = 0

abbrev pub op_query_scan : ℕ
op_query_scan = 2000

abbrev pub op_query_scan_cursor_get_page : ℕ
op_query_scan_cursor_get_page = 2001

abbrev pub op_query_sql : ℕ
op_query_sql = 2002

abbrev pub op_query_sql_cursor_get_page : ℕ
op_query_sql_cursor_get_page = 2003

abbrev pub op_query_sql_fields : ℕ
op_query_sql_fields = 2004

abbrev pub op_query_sql_fields_cursor_get_page : ℕ
op_query_sql_fields_cursor_get_page = 2005

abbrev pub op_query_vector : ℕ
op_query_vector = 30000

abbrev pub op_query_vector_cursor_get_page : ℕ
op_query_vector_cursor_get_page = 30001

-- a `String`, and query arguments, of which None are none
unfoldable pub text : Option (List ℕ) → Value
text none = null
text (some octets) = scalar (string octets)

unfoldable pub arguments : Option Items → Items
arguments none = nil
arguments (some args) = args

unfoldable pub scan : ℤ → ℤ → Bool → Query
scan page_size partitions local = record {
  op_code = op_query_scan;
  following = object null ∷ integer 4 page_size ∷ integer 4 partitions ∷ flag local ∷ [];
  response_config = some (page_class true);
}

unfoldable pub scan_cursor_get_page : ℤ → Query
scan_cursor_get_page cursor = record {
  op_code = op_query_scan_cursor_get_page;
  following = integer 8 cursor ∷ [];
  response_config = some (page_class false);
}

unfoldable pub sql :
    Option (List ℕ) → Option (List ℕ) → ℤ → Option Items → Bool → Bool → Bool → ℤ → Query
unfolding text arguments
sql table_name query_str page_size query_args distributed_joins replicated_only local timeout =
    record {
      op_code = op_query_sql;
      following =
          object (text table_name)
          ∷ object (text query_str)
          ∷ objects (arguments query_args)
          ∷ flag distributed_joins
          ∷ flag local
          ∷ flag replicated_only
          ∷ integer 4 page_size
          ∷ integer 8 timeout
          ∷ [];
      response_config = some (page_class true);
    }

unfoldable pub sql_cursor_get_page : ℤ → Query
sql_cursor_get_page cursor = record {
  op_code = op_query_sql_cursor_get_page;
  following = integer 8 cursor ∷ [];
  response_config = some (page_class false);
}

-- The parameters of `sql_fields`.
pub record FieldsQuery : Type 0 where
  pub query_str : Option (List ℕ)
  pub page_size : ℤ
  pub query_args : Option Items
  pub schema : Option (List ℕ)
  pub statement_type : ℤ
  pub distributed_joins : Bool
  pub local : Bool
  pub replicated_only : Bool
  pub enforce_join_order : Bool
  pub collocated : Bool
  pub lazy : Bool
  pub include_field_names : Bool
  pub max_rows : ℤ
  pub timeout : ℤ

unfoldable pub sql_fields : FieldsQuery → Query
unfolding text arguments
sql_fields q = record {
  op_code = op_query_sql_fields;
  following =
      object (text q.schema)
      ∷ integer 4 q.page_size
      ∷ integer 4 q.max_rows
      ∷ object (text q.query_str)
      ∷ objects (arguments q.query_args)
      ∷ integer 1 q.statement_type
      ∷ flag q.distributed_joins
      ∷ flag q.local
      ∷ flag q.replicated_only
      ∷ flag q.enforce_join_order
      ∷ flag q.collocated
      ∷ flag q.lazy
      ∷ integer 8 q.timeout
      ∷ flag q.include_field_names
      ∷ [];
  response_config = some (sql_class q.include_field_names);
}

unfoldable pub sql_fields_cursor_get_page : ℤ → ℕ → Query
sql_fields_cursor_get_page cursor field_count = record {
  op_code = op_query_sql_fields_cursor_get_page;
  following = integer 8 cursor ∷ [];
  response_config = some (rows_class field_count);
}

-- The clause vector and the threshold are the bits of floats.
unfoldable pub vector : ℤ → Option (List ℕ) → Option (List ℕ) → List ℕ → ℤ → ℕ → Query
unfolding text
vector page_size type_name field clause_vector k threshold = record {
  op_code = op_query_vector;
  following =
      integer 4 page_size
      ∷ object (text type_name)
      ∷ object (text field)
      ∷ object (scalar (real_array float clause_vector))
      ∷ integer 4 k
      ∷ float_bits threshold
      ∷ [];
  response_config = some (page_class true);
}

unfoldable pub vector_cursor_get_page : ℤ → Query
vector_cursor_get_page cursor = record {
  op_code = op_query_vector_cursor_get_page;
  following = integer 8 cursor ∷ [];
  response_config = some (page_class false);
}

unfoldable pub resource_close : ℤ → Query
resource_close cursor = record {
  op_code = op_resource_close;
  following = integer 8 cursor ∷ [];
  response_config = none;
}
