-- ===== src/Api/Sql/Pages.antt =====
-- The pages of an SQL query for fields: `AbstractSqlFieldsCursor._finalize_init` of
-- pygridgain/cursors.py keeps the number of the columns of the first answer, by which the rows of later
-- pages are read.
use python_thin_client.Prelude.{ℕ, suc, ◌≡◌, Option, none, some, [], ◌∷◌, length}
use python_thin_client.Queries.Perform.{Columns, field_names, field_count, range_of, width}

-- `_field_count`: the number of the names, or the count of the answer, which one with the names has not.
unfoldable pub finalize_count : Columns → Option ℕ
unfolding range_of
finalize_count (field_names []) = none
finalize_count (field_names (name ∷ names)) = some (suc (length names))
finalize_count (field_count n) = some (range_of n)

pub finalize_count-width :
    (columns : Columns) (n : ℕ) → finalize_count columns ≡ some n → n ≡ width columns
unfolding finalize_count width
finalize_count-width (field_names []) n e = cc
finalize_count-width (field_names (name ∷ names)) n e = cc
finalize_count-width (field_count m) n e = cc
