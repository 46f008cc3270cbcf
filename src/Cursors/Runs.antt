-- ===== src/Cursors/Runs.antt =====
-- Runs of loops over cursors.
use python_thin_client.Prelude.{ℕ, ◌≡◌, refl, true, false, List, [], ◌∷◌, arith}
use python_thin_client.Cursors.{Reply, page, Cursor, closes, next_line, row, names}
use python_thin_client.Cursors.Pages.{
  iterate, exhausted, answers, iterate-answers, iterate-empty_page,
}

abbrev pages : List (List ℕ)
pages = (3 ∷ []) ∷ (4 ∷ 5 ∷ []) ∷ []

abbrev cursor : Cursor ℕ
cursor = record { cursor_id = 8; rows = 1 ∷ 2 ∷ []; more = true; replies = answers pages }

abbrev broken : List (Reply ℕ) → List ℕ → Cursor ℕ
broken replies rows = record { cursor_id = 8; rows = rows; more = true; replies = replies }

abbrev closed : Cursor ℕ
closed = record { cursor_id = 8; rows = []; more = false; replies = [] }

-- The names of the fields come first.
fields_run :
    next_line {N = ℕ} {A = ℕ} (record { field_names = 70 ∷ 71 ∷ []; cursor = cursor })
    ≡ (row (names (70 ∷ 71 ∷ [])), record { field_names = []; cursor = cursor })
unfolding next_line
fields_run = refl

iterate-answers_example :
    (iterate 6 cursor ≡ (1 ∷ 2 ∷ 3 ∷ 4 ∷ 5 ∷ [], (exhausted, closed))) × (closes closed ≡ false)
iterate-answers_example = iterate-answers 8 (1 ∷ 2 ∷ []) pages 6 (tt, (tt, tt)) (omega arith)

iterate-empty_page_example :
    iterate 3 (broken (page [] true ∷ answers pages) (1 ∷ 2 ∷ []))
    ≡ (1 ∷ 2 ∷ [], (exhausted, broken (answers pages) []))
iterate-empty_page_example = iterate-empty_page 8 (1 ∷ 2 ∷ []) (answers pages) 3 (omega arith)
