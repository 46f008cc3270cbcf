-- ===== src/Cursors.antt =====
-- pygridgain/cursors.py: iteration over the pages of a query. `unwrap_binary` of each value is left
-- out, and so are the attributes that only the first request reads.
pub mod Pages
mod Runs
use python_thin_client.Prelude.{
  ℕ, zero, suc, ◌+◌, Bool, true, false, ◌&&◌, not, List, [], ◌∷◌, ◌++◌, ◌==◌, if◌then◌else◌,
}

-- What the server answers to a request for a page; a status other than 0 raises `CacheError` or
-- `SQLError`.
pub data Reply (A : Type 0) : Type 0 where
  page : List A → Bool → Reply A
  failed : Reply A

-- `data` is what its iterator has left. `replies` are the server's answers to come; after the last
-- the request fails.
pub record Cursor (A : Type 0) : Type 0 where
  pub cursor_id : ℕ
  pub rows : List A
  pub more : Bool
  pub replies : List (Reply A)

pub data Answer (A : Type 0) : Type 0 where
  row : A → Answer A
  stop_iteration query_error : Answer A

module _ {A : Type 0} where
  -- `_finalize_init`
  unfoldable pub finalize_init : ℕ → Reply A → List (Reply A) → Answer (Cursor A)
  finalize_init cursor_id failed replies = query_error
  finalize_init cursor_id (page rows more) replies =
      row (record { cursor_id = cursor_id; rows = rows; more = more; replies = replies })

  -- next(self.data)
  unfoldable pub next_row : Cursor A → List A → Answer A × Cursor A
  next_row c [] = (stop_iteration, record c { rows = [] })
  next_row c (x ∷ xs) = (row x, record c { rows = xs })

  -- the request for the next page, and its first row
  unfoldable pub next_page : Cursor A → List (Reply A) → Answer A × Cursor A
  unfolding next_row
  next_page c [] = (query_error, c)
  next_page c (failed ∷ replies) = (query_error, record c { replies = replies })
  next_page c (page rows more ∷ replies) =
      next_row (record c { more = more; replies = replies }) rows

  -- `__next__` of `ScanCursor`, `SqlCursor` and `VectorCursor`, and `__anext__`
  unfoldable pub next : Cursor A → Answer A × Cursor A
  unfolding next_row next_page
  next c = elim c.rows [
    | x ∷ xs ↦ next_row c (x ∷ xs)
    | [] ↦ elim c.more [ true ↦ next_page c c.replies | false ↦ (stop_iteration, c) ]
  ]

  -- Whether `close` sends a request.
  unfoldable pub closes : Cursor A → Bool
  closes c = not (c.cursor_id == 0) && c.more

-- `SqlFieldsCursor` gives the names of the fields before the rows, where it was asked for them.
pub data Line (N A : Type 0) : Type 0 where
  names : List N → Line N A
  values : A → Line N A

pub record FieldsCursor (N A : Type 0) : Type 0 where
  pub field_names : List N
  pub cursor : Cursor A

module _ {N A : Type 0} where
  unfoldable pub as_values :
      FieldsCursor N A → Answer A × Cursor A → Answer (Line N A) × FieldsCursor N A
  as_values c (row x, cursor) = (row (values x), record c { cursor = cursor })
  as_values c (stop_iteration, cursor) = (stop_iteration, record c { cursor = cursor })
  as_values c (query_error, cursor) = (query_error, record c { cursor = cursor })

  unfoldable pub next_line : FieldsCursor N A → Answer (Line N A) × FieldsCursor N A
  unfolding next as_values
  next_line c = elim c.field_names [
    | n ∷ ns ↦ (row (names (n ∷ ns)), record c { field_names = [] })
    | [] ↦ as_values c (next c.cursor)
  ]
