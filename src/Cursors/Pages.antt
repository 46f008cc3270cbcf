-- ===== src/Cursors/Pages.antt =====
-- What a loop over a cursor sees of the pages.
use python_thin_client.Prelude.{
  ℕ, zero, suc, ◌<◌, ◌≡◌, refl, ap, Bool, true, false, not, List, [], ◌∷◌, ◌++◌, ◌==◌, length, All,
  arith,
}
use python_thin_client.Cursors.{
  Reply, page, failed, Cursor, row, stop_iteration, query_error, next, next_row, next_page, closes,
}

-- How a loop over the cursor ends.
pub data End : Type 0 where
  exhausted raised_error out_of_fuel : End

module _ {A : Type 0} where
  -- `for x in cursor`: the rows, how the loop ends, and the cursor then
  unfoldable pub iterate : ℕ → Cursor A → List A × (End × Cursor A)
  iterate zero c = ([], (out_of_fuel, c))
  iterate (suc fuel) c =
      let (answer, c') = next c in
      elim answer [
        | row x ↦ let (xs, rest) = iterate fuel c' in (x ∷ xs, rest)
        | stop_iteration ↦ ([], (exhausted, c'))
        | query_error ↦ ([], (raised_error, c'))
      ]

  abbrev pub concat : List (List A) → List A
  concat [] = []
  concat (p ∷ ps) = p ++ concat ps

  abbrev pub has_more : List (List A) → Bool
  has_more [] = false
  has_more (p ∷ ps) = true

  -- The answers of a server that says of each page whether another follows.
  abbrev pub answers : List (List A) → List (Reply A)
  answers [] = []
  answers (p ∷ ps) = page p (has_more ps) ∷ answers ps

  abbrev pub IsFilled : List A → Type 0
  IsFilled [] = ⊥
  IsFilled (x ∷ xs) = Unit {0}

  abbrev cursor_at : ℕ → List A → List (List A) → Cursor A
  cursor_at k p ps = record { cursor_id = k; rows = p; more = has_more ps; replies = answers ps }

  iterate_pages :
      (k : ℕ) (p : List A) (ps : List (List A)) (fuel : ℕ)
      → All IsFilled ps
      → length (concat (p ∷ ps)) < fuel
      → iterate fuel (cursor_at k p ps) ≡ (concat (p ∷ ps), (exhausted, cursor_at k [] []))
  unfolding iterate next next_row next_page
  iterate_pages k p ps zero filled enough = absurd (omega arith)
  iterate_pages k (x ∷ xs) ps (suc fuel) filled enough =
      ap (λ r. (x ∷ r.0, r.1)) (iterate_pages k xs ps fuel filled (omega arith))
  iterate_pages k [] [] (suc fuel) filled enough = refl
  iterate_pages k [] ([] ∷ ps) (suc fuel) filled enough = absurd filled.0
  iterate_pages k [] ((y ∷ ys) ∷ ps) (suc fuel) filled enough =
      ap (λ r. (y ∷ r.0, r.1)) (iterate_pages k ys ps fuel filled.1 (omega arith))

  -- A loop over the pages of a server that sends no empty page after the first sees every row, in
  -- order, and then ends, where the cursor has nothing left to close.
  pub iterate-answers :
      (k : ℕ) (p : List A) (ps : List (List A)) (fuel : ℕ)
      → All IsFilled ps
      → length (concat (p ∷ ps)) < fuel
      → (iterate fuel (cursor_at k p ps) ≡ (concat (p ∷ ps), (exhausted, cursor_at k [] [])))
        × (closes (cursor_at k [] []) ≡ false)
  unfolding closes
  iterate-answers k p ps fuel filled enough =
      (iterate_pages k p ps fuel filled enough, ground arith)

  -- The answers of a server that sends these pages and then an error.
  abbrev pub broken_off : List (List A) → List (Reply A)
  broken_off [] = failed ∷ []
  broken_off (p ∷ ps) = page p true ∷ broken_off ps

  abbrev broken_at : ℕ → List A → List (Reply A) → Cursor A
  broken_at k p replies = record { cursor_id = k; rows = p; more = true; replies = replies }

  -- A loop over pages that an error follows sees their rows and then raises the error, and the
  -- cursor is still to be closed, if its identifier is not 0.
  pub iterate-broken_off :
      (k : ℕ) (p : List A) (ps : List (List A)) (fuel : ℕ)
      → All IsFilled ps
      → length (concat (p ∷ ps)) < fuel
      → (iterate fuel (broken_at k p (broken_off ps))
          ≡ (concat (p ∷ ps), (raised_error, broken_at k [] [])))
        × (closes (broken_at k [] []) ≡ not (k == 0))
  unfolding iterate next next_row next_page closes
  iterate-broken_off k p ps zero filled enough = absurd (omega arith)
  iterate-broken_off k (x ∷ xs) ps (suc fuel) filled enough =
      let (loop, still) = iterate-broken_off k xs ps fuel filled (omega arith) in
      (ap (λ r. (x ∷ r.0, r.1)) loop, still)
  iterate-broken_off k [] [] (suc fuel) filled enough = (refl, ground arith)
  iterate-broken_off k [] ([] ∷ ps) (suc fuel) filled enough = absurd filled.0
  iterate-broken_off k [] ((y ∷ ys) ∷ ps) (suc fuel) filled enough =
      let (loop, still) = iterate-broken_off k ys ps fuel filled.1 (omega arith) in
      (ap (λ r. (y ∷ r.0, r.1)) loop, still)

  -- An empty page ends the loop even where the server says that more pages follow: what they hold
  -- is not seen.
  pub iterate-empty_page :
      (k : ℕ) (p : List A) (replies : List (Reply A)) (fuel : ℕ)
      → length p < fuel
      → iterate fuel (broken_at k p (page [] true ∷ replies))
        ≡ (p, (exhausted, broken_at k [] replies))
  unfolding iterate next next_row next_page
  iterate-empty_page k p replies zero enough = absurd (omega arith)
  iterate-empty_page k (x ∷ xs) replies (suc fuel) enough =
      ap (λ r. (x ∷ r.0, r.1)) (iterate-empty_page k xs replies fuel (omega arith))
  iterate-empty_page k [] replies (suc fuel) enough = refl
