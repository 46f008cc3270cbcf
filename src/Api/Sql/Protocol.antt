-- ===== src/Api/Sql/Protocol.antt =====
-- The binary protocol of the queries for rows: what a server reads of them, field by field.
use python_thin_client.Prelude.{ℕ, Bool, Option, none, some, List, [], ◌∷◌}
use python_thin_client.Prelude.Int.{ℤ, pos}
use python_thin_client.Datatypes.Values.{Value, Items}
use python_thin_client.Queries.Perform.{Param, object, objects, integer, flag, float_bits}
use python_thin_client.Queries.Perform.Params.{an_object, an_array, a_bool, a_float, an_int}
use python_thin_client.Queries.Perform.Commands.{Operations}

pub record ScanRequest : Type 0 where
  pub filter : Value
  pub page_size : ℤ
  pub partition : ℤ
  pub local : Bool

pub record SqlRequest : Type 0 where
  pub table : Value
  pub statement : Value
  pub args : Items
  pub distributed_joins : Bool
  pub local : Bool
  pub replicated_only : Bool
  pub page_size : ℤ
  pub timeout : ℤ

pub record FieldsRequest : Type 0 where
  pub schema : Value
  pub page_size : ℤ
  pub max_rows : ℤ
  pub statement : Value
  pub args : Items
  pub statement_type : ℤ
  pub distributed_joins : Bool
  pub local : Bool
  pub replicated_only : Bool
  pub enforce_join_order : Bool
  pub collocated : Bool
  pub lazy : Bool
  pub timeout : ℤ
  pub include_field_names : Bool

pub record VectorRequest : Type 0 where
  pub page_size : ℤ
  pub type_name : Value
  pub vector_field : Value
  pub clause : Value
  pub nearest : ℤ
  pub threshold : ℕ

-- What a server is asked for of a cache, and of a cursor.
pub data Search : Type 0 where
  scanning : ScanRequest → Search
  selecting : SqlRequest → Search
  selecting_fields : FieldsRequest → Search
  finding : VectorRequest → Search

pub data Paging : Type 0 where
  scan_page sql_page fields_page vector_page closing : ℤ → Paging

abbrev as_scan : List Param → Option Search
as_scan (object f ∷ integer _ n ∷ integer _ p ∷ flag l ∷ []) =
    some (scanning (record { filter = f; page_size = n; partition = p; local = l }))
as_scan ps = none

abbrev as_sql : List Param → Option Search
as_sql
      (object t
        ∷ object q
        ∷ objects a
        ∷ flag d
        ∷ flag l
        ∷ flag r
        ∷ integer _ n
        ∷ integer _ m
        ∷ []) =
    some (
      selecting (record {
        table = t;
        statement = q;
        args = a;
        distributed_joins = d;
        local = l;
        replicated_only = r;
        page_size = n;
        timeout = m;
      }))
as_sql ps = none

abbrev as_switches : Value → ℤ → ℤ → Value → Items → ℤ → List Param → Option Search
as_switches s n x q a t
      (flag d ∷ flag l ∷ flag r ∷ flag e ∷ flag c ∷ flag z ∷ integer _ m ∷ flag f ∷ []) =
    some (
      selecting_fields (record {
        schema = s;
        page_size = n;
        max_rows = x;
        statement = q;
        args = a;
        statement_type = t;
        distributed_joins = d;
        local = l;
        replicated_only = r;
        enforce_join_order = e;
        collocated = c;
        lazy = z;
        timeout = m;
        include_field_names = f;
      }))
as_switches s n x q a t ps = none

abbrev as_fields : List Param → Option Search
as_fields (object s ∷ integer _ n ∷ integer _ x ∷ object q ∷ objects a ∷ integer _ t ∷ ps) =
    as_switches s n x q a t ps
as_fields ps = none

abbrev as_vector : List Param → Option Search
as_vector (integer _ n ∷ object t ∷ object f ∷ object c ∷ integer _ k ∷ float_bits h ∷ []) = some (
    finding (record {
      page_size = n;
      type_name = t;
      vector_field = f;
      clause = c;
      nearest = k;
      threshold = h;
    }))
as_vector ps = none

abbrev on_cursor : (ℤ → Paging) → List Param → Option Paging
on_cursor f (integer _ cursor ∷ []) = some (f cursor)
on_cursor f ps = none

abbrev pub searches : Operations Search
searches =
    (pos 2000, (an_object ∷ an_int 4 ∷ an_int 4 ∷ a_bool ∷ [], as_scan))
    ∷ (
      pos 2002,
      (
        an_object ∷ an_object ∷ an_array ∷ a_bool ∷ a_bool ∷ a_bool ∷ an_int 4 ∷ an_int 8 ∷ [],
        as_sql,
      ),
    )
    ∷ (
      pos 2004,
      (
        an_object
            ∷ an_int 4
            ∷ an_int 4
            ∷ an_object
            ∷ an_array
            ∷ an_int 1
            ∷ a_bool
            ∷ a_bool
            ∷ a_bool
            ∷ a_bool
            ∷ a_bool
            ∷ a_bool
            ∷ an_int 8
            ∷ a_bool
            ∷ [],
        as_fields,
      ),
    )
    ∷ (
      pos 30000,
      (an_int 4 ∷ an_object ∷ an_object ∷ an_object ∷ an_int 4 ∷ a_float ∷ [], as_vector),
    )
    ∷ []

abbrev pub pagings : Operations Paging
pagings =
    (pos 0, (an_int 8 ∷ [], on_cursor closing))
    ∷ (pos 2001, (an_int 8 ∷ [], on_cursor scan_page))
    ∷ (pos 2003, (an_int 8 ∷ [], on_cursor sql_page))
    ∷ (pos 2005, (an_int 8 ∷ [], on_cursor fields_page))
    ∷ (pos 30001, (an_int 8 ∷ [], on_cursor vector_page))
    ∷ []
