-- ===== src/Datatypes/Values/Trips.antt =====
-- What it is to read back, and the values that hold no others.
use python_thin_client.Prelude.{
  ℕ, zero, suc, ◌^◌, ◌≤◌, ◌<◌, ◌≡◌, refl, false, ◌==◌, concat, Option, List, ◌∷◌, ◌++◌, length, All,
  arith, append_assoc, lt→ltb,
}
use python_thin_client.Prelude.Int.{ℤ}
use python_thin_client.Prelude.Outcome.{ok}
use python_thin_client.Prelude.Dict.{lookup}
use python_thin_client.Datatypes.Wire.{Stream, Result, to_bytes, field_byte}
use python_thin_client.Utils.{Text}
use python_thin_client.Datatypes.Scalars.{Scalar, enum, put_int, pack_nat, Fits}
use python_thin_client.Datatypes.Scalars.Parse.{enums}
use python_thin_client.Datatypes.Scalars.Laws.{get_int-put_int, pack_signed_lem}
use python_thin_client.Datatypes.Scalars.Objects.{class_of, code_of, Holds}
use python_thin_client.Datatypes.Scalars.RoundTrip.{write_scalar-read_scalar}
use python_thin_client.Datatypes.Values.{
  Value, scalar, standard_array, enum_array, Items, Entries, Standard, element_class, standard_code,
  string_items, uuid_items, date_items, timestamp_items, time_items, decimal_items, tc_null,
  DataClass, scalars, standards, enum_arrays, Binaries, tc_map, class_for, count, count_entries,
  write_value, write_items, write_entries, write_parts, read_items, read_entries, read_fields,
  read_as, read_object,
}
use python_thin_client.Datatypes.Values.Depth.{depth, depth_items, depth_entries}
use python_thin_client.Datatypes.Values.Elements.{
  Takes, class_for_lem, NullableHolds, tc_map-code_of, nullables,
}

pub pack_nat_lem : (n : ℕ) → n < 2 ^ 31 → pack_nat 4 n ≡ ok (to_bytes 4 n)
unfolding pack_nat
pack_nat_lem n h = rw (lt→ltb n (256 ^ 4) (omega arith)) refl

-- What is written of a value, and that it reads back with fuel for its depth, whether its class is
-- asked for or found by the type code.
abbrev pub Trip : Binaries → Value → Type 0
Trip g v =
    (body : List ℕ) × (write_value g v ≡ ok body)
    × ((rest : Stream) (fuel : ℕ) (asked : Option DataClass)
        → Takes asked v
        → depth v ≤ fuel
        → read_object g fuel asked (body ++ rest) ≡ ok (v, rest))

module _ (g : Binaries) where
  abbrev pub ItemsTrip : Items → Type 0
  ItemsTrip xs =
      (body : List ℕ) × (write_items g xs ≡ ok body)
      × ((rest : Stream) (fuel : ℕ)
          → depth_items xs ≤ fuel
          → read_items g (read_object g fuel) (count xs) (body ++ rest) ≡ ok (xs, rest))

  abbrev pub EntriesTrip : Entries → Type 0
  EntriesTrip es =
      (body : List ℕ) × (write_entries g es ≡ ok body)
      × ((rest : Stream) (fuel : ℕ)
          → depth_entries es ≤ fuel
          → read_entries g (read_object g fuel) (count_entries es) (body ++ rest) ≡ ok (es, rest))

  abbrev pub FieldsTrip : List (Text × DataClass) → Items → Type 0
  FieldsTrip schema xs =
      (parts : List (List ℕ)) × (write_parts g xs ≡ ok parts)
      × (length schema ≡ length parts)
      × ((rest : Stream) (fuel : ℕ)
          → depth_items xs ≤ fuel
          → read_fields g (read_object g fuel) schema (concat parts ++ rest) ≡ ok (xs, rest))

  -- A reader that finds the class at the type code goes on as the class does.
  pub read_object_at :
      (code : ℕ) (c : DataClass) (n fuel : ℕ) (asked : Option DataClass) (s : Stream)
      (r : Result (Value × Stream))
      → class_for asked code ≡ ok c
      → suc n ≤ fuel
      → ((f : ℕ) → n ≤ f → read_as g (read_object g f) c s ≡ r)
      → read_object g fuel asked (code ∷ s) ≡ r
  unfolding read_object
  read_object_at code c n zero asked s r known deep e = absurd (omega arith)
  read_object_at code c n (suc f) asked s r known deep e =
      rw (field_byte code s, known) (e f (omega arith))

  pub scalar-Trip : (x : Scalar) → Holds x → Trip g (scalar x)
  unfolding write_value read_as depth
  scalar-Trip x h =
      let (body, wrote, back) = write_scalar-read_scalar x h in
      (
        code_of (class_of x) ∷ body,
        wrote,
        λ rest fuel asked takes deep.
            read_object_at (code_of (class_of x)) (scalars (class_of x)) 0 fuel asked (body ++ rest)
              _
              (class_for_lem asked (code_of (class_of x)) (scalars (class_of x)) takes
                (tc_map-code_of x h).0 (tc_map-code_of x h).1)
              deep (λ f _. rw (back rest) refl),
      )

  tc_map-standard_code :
      (k : Standard)
      → (tc_map (standard_code k) ≡ ok (standards k)) × ((standard_code k == tc_null) ≡ false)
  unfolding tc_map lookup
  tc_map-standard_code string_items = (refl, refl)
  tc_map-standard_code uuid_items = (refl, refl)
  tc_map-standard_code date_items = (refl, refl)
  tc_map-standard_code timestamp_items = (refl, refl)
  tc_map-standard_code time_items = (refl, refl)
  tc_map-standard_code decimal_items = (refl, refl)

  pub standard-Trip :
      (k : Standard) (xs : List (Option Scalar))
      → length xs < 2 ^ 31
      → All (NullableHolds (element_class k)) xs
      → Trip g (standard_array k xs)
  unfolding write_value read_as depth
  standard-Trip k xs small h =
      let (body, wrote, back) = nullables (element_class k) xs small h in
      (
        standard_code k ∷ body,
        rw wrote refl,
        λ rest fuel asked takes deep.
            read_object_at (standard_code k) (standards k) 0 fuel asked (body ++ rest) _
              (class_for_lem asked (standard_code k) (standards k) takes (tc_map-standard_code k).0
                (tc_map-standard_code k).1)
              deep (λ f _. rw (back rest) refl),
      )

  pub enum-Trip :
      (t : ℤ) (xs : List (Option Scalar))
      → Fits 32 t
      → length xs < 2 ^ 31
      → All (NullableHolds (enums enum)) xs
      → Trip g (enum_array t xs)
  unfolding write_value read_as depth tc_map lookup
  enum-Trip t xs ht small h =
      let (body, wrote, back) = nullables (enums enum) xs small h in
      (
        0x1d ∷ (put_int 4 t ++ body),
        rw (pack_signed_lem 4 t ht, wrote) refl,
        λ rest fuel asked takes deep.
            read_object_at 0x1d enum_arrays 0 fuel asked ((put_int 4 t ++ body) ++ rest) _
              (class_for_lem asked 0x1d enum_arrays takes refl refl) deep
              (λ f _.
                rw (append_assoc, get_int-put_int 4 t (body ++ rest) (omega arith) ht, back rest)
                  refl),
      )
