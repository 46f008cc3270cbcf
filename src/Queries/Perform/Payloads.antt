-- ===== src/Queries/Perform/Payloads.antt =====
-- What a server writes of the value of a result, and the reading of it.
use python_thin_client.Prelude.{
  ℕ, ◌^◌, ◌≤◌, ◌<◌, ◌≡◌, refl, Bool, true, false, Option, none, some, List, [], ◌∷◌, ◌++◌, length,
  All, arith, append_assoc,
}
use python_thin_client.Prelude.Int.{ℤ, pos}
use python_thin_client.Prelude.Outcome.{ok, ◌>>=◌}
use python_thin_client.Datatypes.Wire.{Stream, Result, to_bytes, field-to_bytes}
use python_thin_client.Datatypes.Scalars.{Fits, pack_nat, pack_int, pack_bool, write_array}
use python_thin_client.Datatypes.Scalars.Parse.{strings}
use python_thin_client.Datatypes.Scalars.Laws.{Reads}
use python_thin_client.Datatypes.Scalars.Arrays.{read_bool_lem, read_int_lem}
use python_thin_client.Datatypes.Values.{
  Items, Entries, Binaries, count, count_entries, read_value, write_nullable, is_plain, plain_items,
  plain_entries, dict_of, end,
}
use python_thin_client.Datatypes.Values.Depth.{depth, depth_items, depth_entries}
use python_thin_client.Datatypes.Values.Elements.{NullableHolds, nullables}
use python_thin_client.Datatypes.Values.Trips.{pack_nat_lem}
use python_thin_client.Queries.Perform.Served.{
  serve_value, serve_items, serve_entries, Served, ServedItems, ServedEntries, value_trip,
  items_trip, entries_trip,
}
use python_thin_client.Queries.Perform.{
  FieldClass, any_data, map_class, bool_class, long_class, page_class, rows_class, sql_class,
  Columns, field_names, field_count, Returned, nothing, value, map, truth, number, page, rows,
  sql_rows, range_of, width, read_map, read_rows, read_cursor, read_columns, read_answer,
  without_client, read_returned,
}

-- The values of the rows, row by row.
abbrev write_rows : Binaries → List Items → Result (List ℕ)
write_rows g [] = ok []
write_rows g (row ∷ others) = do
  bytes ← serve_items g row
  more_bytes ← write_rows g others
  ok (bytes ++ more_bytes)

abbrev write_map : Binaries → Entries → Result (List ℕ)
write_map g es = do
  size ← pack_nat 4 (count_entries es)
  body ← serve_entries g es
  ok (size ++ body)

abbrev write_cursor : Option ℤ → Result (List ℕ)
write_cursor none = ok []
write_cursor (some cursor) = pack_int 8 cursor

abbrev write_columns : Columns → Result (List ℕ)
write_columns (field_names names) = write_array write_nullable names
write_columns (field_count n) = pack_int 4 n

-- The bytes of the fields of an answer.
abbrev pub payload : Binaries → Returned → Result (List ℕ)
payload g nothing = ok []
payload g (value v) = serve_value g v
payload g (map es) = write_map g es
payload g (truth b) = pack_bool b
payload g (number n) = pack_int 8 n
payload g (page cursor es more) = do
  cursor_bytes ← write_cursor cursor
  body ← write_map g es
  more_bytes ← pack_bool more
  ok (cursor_bytes ++ (body ++ more_bytes))
payload g (rows data_rows more) = do
  size ← pack_nat 4 (length data_rows)
  body ← write_rows g data_rows
  more_bytes ← pack_bool more
  ok (size ++ (body ++ more_bytes))
payload g (sql_rows cursor columns data_rows more) = do
  cursor_bytes ← pack_int 8 cursor
  column_bytes ← write_columns columns
  size ← pack_int 4 (pos (length data_rows))
  body ← write_rows g data_rows
  more_bytes ← pack_bool more
  ok (cursor_bytes ++ (column_bytes ++ (size ++ (body ++ more_bytes))))

-- The numbers, names and values that a server can send, without binary objects that are not wrapped, and
-- that the stack has room for, in rows of the same number of columns, and in maps that a dictionary can
-- be.
abbrev MapHolds : Binaries → ℕ → Entries → Type 0
MapHolds g fuel es =
    (count_entries es < 2 ^ 31)
    × ServedEntries g es
    × (depth_entries es ≤ fuel)
    × (plain_entries es ≡ true)
    × (dict_of g end es ≡ ok es)

abbrev pub RowHolds : Binaries → ℕ → ℕ → Items → Type 0
RowHolds g fuel columns row =
    (count row ≡ columns) × ServedItems g row × (depth_items row ≤ fuel) × (plain_items row ≡ true)

abbrev CursorHolds : Option ℤ → Type 0
CursorHolds none = Unit {0}
CursorHolds (some cursor) = Fits 64 cursor

abbrev ColumnsHold : Columns → Type 0
ColumnsHold (field_names names) = (length names < 2 ^ 31) × All (NullableHolds strings) names
ColumnsHold (field_count n) = Fits 32 n

abbrev has_cursor : Option ℤ → Bool
has_cursor none = false
has_cursor (some cursor) = true

abbrev has_names : Columns → Bool
has_names (field_names names) = true
has_names (field_count n) = false

-- A value of the class that a query expects, which a server can send so and the stack has room for.
abbrev pub Answers : Binaries → ℕ → Option FieldClass → Returned → Type 0
Answers g fuel config nothing = none ≡ config
Answers g fuel config (value v) =
    (some any_data ≡ config) × Served g v × (depth v ≤ fuel) × (is_plain v ≡ true)
Answers g fuel config (map es) = (some map_class ≡ config) × MapHolds g fuel es
Answers g fuel config (truth b) = some bool_class ≡ config
Answers g fuel config (number n) = (some long_class ≡ config) × Fits 64 n
Answers g fuel config (page cursor es more) =
    (some (page_class (has_cursor cursor)) ≡ config) × CursorHolds cursor × MapHolds g fuel es
Answers g fuel config (rows data_rows more) =
    (columns : ℕ) × (some (rows_class columns) ≡ config)
    × (length data_rows < 2 ^ 31)
    × All (RowHolds g fuel columns) data_rows
Answers g fuel config (sql_rows cursor columns data_rows more) =
    (some (sql_class (has_names columns)) ≡ config)
    × Fits 64 cursor
    × ColumnsHold columns
    × (length data_rows < 2 ^ 30)
    × All (RowHolds g fuel (width columns)) data_rows

module _ (g : Binaries) (fuel : ℕ) where
  map_trip : (es : Entries) → MapHolds g fuel es → Reads (write_map g) (read_map g fuel) es
  unfolding read_map without_client
  map_trip es (small, holds, deep, plain, dict) =
      let (body, wrote, back) = entries_trip g es holds in
      let n = count_entries es in
      (
        to_bytes 4 n ++ body,
        rw (pack_nat_lem n small, wrote) refl,
        λ rest.
            rw
              (
                append_assoc,
                field-to_bytes 4 n (body ++ rest) (omega (arith, small)),
                back rest fuel deep,
                plain,
                dict,
              )
              refl,
      )

  rows_trip :
      (columns : ℕ) (data_rows : List Items)
      → All (RowHolds g fuel columns) data_rows
      → (bytes : List ℕ) × (write_rows g data_rows ≡ ok bytes)
        × ((rest : Stream)
            → read_rows g fuel columns (length data_rows) (bytes ++ rest) ≡ ok (data_rows, rest))
  unfolding read_rows without_client
  rows_trip columns [] h = ([], refl, λ rest. refl)
  rows_trip columns (row ∷ others) ((same, holds, deep, plain), h) =
      let (bytes, wrote, back) = items_trip g row holds in
      let (more_bytes, wrote_all, back_all) = rows_trip columns others h in
      (
        bytes ++ more_bytes,
        rw (wrote, wrote_all) refl,
        λ rest.
            rw (append_assoc, ← same, back (more_bytes ++ rest) fuel deep, plain, back_all rest)
              refl,
      )

  cursor_trip :
      (cursor : Option ℤ)
      → CursorHolds cursor
      → (bytes : List ℕ) × (write_cursor cursor ≡ ok bytes)
        × ((rest : Stream) → read_cursor g (has_cursor cursor) (bytes ++ rest) ≡ ok (cursor, rest))
  unfolding read_cursor
  cursor_trip none h = ([], refl, λ rest. refl)
  cursor_trip (some cursor) h =
      let (bytes, wrote, back) = read_int_lem 8 cursor (omega arith) h in
      (bytes, wrote, λ rest. rw (back rest) refl)

  columns_trip :
      (columns : Columns)
      → ColumnsHold columns
      → (bytes : List ℕ) × (write_columns columns ≡ ok bytes)
        × ((rest : Stream)
            → read_columns g (has_names columns) (bytes ++ rest) ≡ ok (columns, rest))
  unfolding read_columns
  columns_trip (field_names names) h =
      let (bytes, wrote, back) = nullables strings names h.0 h.1 in
      (bytes, wrote, λ rest. rw (back rest) refl)
  columns_trip (field_count n) h =
      let (bytes, wrote, back) = read_int_lem 4 n (omega arith) h in
      (bytes, wrote, λ rest. rw (back rest) refl)

  -- An answer reads back as it was written, where the query expects it.
  pub payload_trip :
      (config : Option FieldClass) (r : Returned)
      → Answers g fuel config r
      → (bytes : List ℕ) × (payload g r ≡ ok bytes)
        × ((rest : Stream) → read_returned g fuel config (bytes ++ rest) ≡ ok (r, rest))
  unfolding read_returned read_answer read_value without_client range_of
  payload_trip config nothing e = ([], refl, λ rest. rw (← e) refl)
  payload_trip config (value v) (e, holds, deep, plain) =
      let (body, wrote, back) = value_trip g v holds in
      (body, wrote, λ rest. rw (← e, back rest fuel deep, plain) refl)
  payload_trip config (map es) (e, holds) =
      let (body, wrote, back) = map_trip es holds in (body, wrote, λ rest. rw (← e, back rest) refl)
  payload_trip config (truth b) e =
      let (body, wrote, back) = read_bool_lem b in (body, wrote, λ rest. rw (← e, back rest) refl)
  payload_trip config (number n) (e, fit) =
      let (body, wrote, back) = read_int_lem 8 n (omega arith) fit in
      (body, wrote, λ rest. rw (← e, back rest) refl)
  payload_trip config (page cursor es more) (e, has, holds) =
      let (first, wrote_first, back_first) = cursor_trip cursor has in
      let (body, wrote, back) = map_trip es holds in
      let (last, wrote_last, back_last) = read_bool_lem more in
      (
        first ++ (body ++ last),
        rw (wrote_first, wrote, wrote_last) refl,
        λ rest.
            rw
              (
                ← e,
                append_assoc,
                back_first ((body ++ last) ++ rest),
                append_assoc,
                back (last ++ rest),
                back_last rest,
              )
              refl,
      )
  payload_trip config (rows data_rows more) (columns, e, small, h) =
      let n = length data_rows in
      let (body, wrote, back) = rows_trip columns data_rows h in
      let (last, wrote_last, back_last) = read_bool_lem more in
      (
        to_bytes 4 n ++ (body ++ last),
        rw (pack_nat_lem n small, wrote, wrote_last) refl,
        λ rest.
            rw
              (
                ← e,
                append_assoc,
                field-to_bytes 4 n ((body ++ last) ++ rest) (omega (arith, small)),
                append_assoc,
                back (last ++ rest),
                back_last rest,
              )
              refl,
      )
  payload_trip config (sql_rows cursor columns data_rows more) (e, fit, has, small, h) =
      let (first, wrote_first, back_first) = read_int_lem 8 cursor (omega arith) fit in
      let (second, wrote_second, back_second) = columns_trip columns has in
      let (third, wrote_third, back_third) =
        read_int_lem 4 (pos (length data_rows)) (omega arith) (omega (arith, small)) in
      let (body, wrote, back) = rows_trip (width columns) data_rows h in
      let (last, wrote_last, back_last) = read_bool_lem more in
      (
        first ++ (second ++ (third ++ (body ++ last))),
        rw (wrote_first, wrote_second, wrote_third, wrote, wrote_last) refl,
        λ rest.
            rw
              (
                ← e,
                append_assoc,
                back_first ((second ++ (third ++ (body ++ last))) ++ rest),
                append_assoc,
                back_second ((third ++ (body ++ last)) ++ rest),
                append_assoc,
                back_third ((body ++ last) ++ rest),
                append_assoc,
                back (last ++ rest),
                back_last rest,
              )
              refl,
      )
