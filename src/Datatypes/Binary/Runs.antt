-- ===== src/Datatypes/Binary/Runs.antt =====
-- The footer of a binary object.
use python_thin_client.Prelude.{ℕ, ◌+◌, ◌≡◌, refl, false, List, [], ◌∷◌, ◌++◌, drop, arith}
use python_thin_client.Prelude.Int.{pos}
use python_thin_client.Datatypes.Binary.{header_len, tc_complex_object, write_object}
use python_thin_client.Datatypes.Binary.Footer.{field_offset, field_offset_lem}

abbrev one_field : List ℕ
one_field = 2 ∷ 7 ∷ 0 ∷ []

abbrev two_field : List ℕ
two_field = 3 ∷ 5 ∷ 0 ∷ 0 ∷ 0 ∷ []

-- A full footer; the second field is at 27.
abbrev pair : List ℕ
pair =
    tc_complex_object
    ∷ write_object (λ t. t) false (pos 1) (80 ∷ []) ((97 ∷ []) ∷ (98 ∷ []) ∷ [])
        (one_field ∷ two_field ∷ [])

field_offset_example :
    (rest : List ℕ) × (field_offset 1 pair ≡ header_len + 3)
    × (drop (field_offset 1 pair) pair ≡ two_field ++ rest)
field_offset_example =
    field_offset_lem (λ t. t) false (pos 1) (80 ∷ []) ((97 ∷ []) ∷ (98 ∷ []) ∷ [])
      (one_field ∷ two_field ∷ []) (one_field ∷ []) [] two_field refl refl (omega arith)
