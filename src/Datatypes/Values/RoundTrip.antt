-- ===== src/Datatypes/Values/RoundTrip.antt =====
-- Reading values back.
use python_thin_client.Prelude.{
  suc, refl, ap, concat, none, some, List, [], ◌∷◌, ◌++◌, arith, append_assoc,
}
use python_thin_client.Prelude.Dict.{lookup}
use python_thin_client.Datatypes.Wire.{to_bytes, field-to_bytes}
use python_thin_client.Utils.{Text}
use python_thin_client.Datatypes.Scalars.{put_int}
use python_thin_client.Datatypes.Scalars.Laws.{get_int-put_int, pack_signed_lem}
use python_thin_client.Datatypes.Values.{
  Value, null, scalar, standard_array, enum_array, object_array, collection, mapping, wrapped,
  Items, nil, cons, Entries, end, entry, tc_null, DataClass, nulls, object_arrays, collections,
  maps, binary, Binaries, tc_map, count, count_entries, write_value, read_items, read_entries,
  read_fields, read_as,
}
use python_thin_client.Datatypes.Values.Depth.{depth, depth_items, depth_entries}
use python_thin_client.Datatypes.Values.Trips.{
  Trip, ItemsTrip, EntriesTrip, FieldsTrip, pack_nat_lem, read_object_at, scalar-Trip,
  standard-Trip, enum-Trip,
}
use python_thin_client.Datatypes.Values.Objects.{binary-Trip}
use python_thin_client.Datatypes.Values.Elements.{
  Takes-none, class_for_lem, class_for_null, FieldsHold, ValueHolds, ItemsHold, EntriesHold,
}

module _ (g : Binaries) where
  mutual
    unfolding write_value read_as read_items read_entries read_fields depth ValueHolds tc_map lookup

    value-Trip : (v : Value) → ValueHolds g v → Trip g v
    value-Trip null h = (
      tc_null ∷ [],
      refl,
      λ rest fuel asked takes deep.
          read_object_at g tc_null nulls 0 fuel asked rest _ (class_for_null asked) deep
            (λ f _. refl),
    )
    value-Trip (scalar x) h = scalar-Trip g x h
    value-Trip (standard_array k xs) h = standard-Trip g k xs h.0 h.1
    value-Trip (enum_array t xs) h = enum-Trip g t xs h.0 h.1 h.2
    value-Trip (object_array t xs) h =
        let (body, wrote, back) = items_trip xs h.2 in
        let n = count xs in
        (
          0x17 ∷ (put_int 4 t ++ (to_bytes 4 n ++ body)),
          rw (pack_signed_lem 4 t h.0, pack_nat_lem n h.1, wrote) refl,
          λ rest fuel asked takes deep.
              read_object_at g 0x17 object_arrays (depth_items xs) fuel asked
                ((put_int 4 t ++ (to_bytes 4 n ++ body)) ++ rest) _
                (class_for_lem asked 0x17 object_arrays takes refl refl) deep
                (λ f enough.
                  rw
                    (
                      append_assoc,
                      get_int-put_int 4 t ((to_bytes 4 n ++ body) ++ rest) (omega arith) h.0,
                      append_assoc,
                      field-to_bytes 4 n (body ++ rest) (omega (arith, h.1)),
                      back rest f enough,
                    )
                    refl),
        )
    value-Trip (collection t xs) h =
        let (body, wrote, back) = items_trip xs h.2 in
        let n = count xs in
        (
          0x18 ∷ (to_bytes 4 n ++ (put_int 1 t ++ body)),
          rw (pack_nat_lem n h.1, pack_signed_lem 1 t h.0, wrote) refl,
          λ rest fuel asked takes deep.
              read_object_at g 0x18 collections (depth_items xs) fuel asked
                ((to_bytes 4 n ++ (put_int 1 t ++ body)) ++ rest) _
                (class_for_lem asked 0x18 collections takes refl refl) deep
                (λ f enough.
                  rw
                    (
                      append_assoc,
                      field-to_bytes 4 n ((put_int 1 t ++ body) ++ rest) (omega (arith, h.1)),
                      append_assoc,
                      get_int-put_int 1 t (body ++ rest) (omega arith) h.0,
                      back rest f enough,
                    )
                    refl),
        )
    value-Trip (mapping t es) h =
        let (body, wrote, back) = entries_trip es h.2 in
        let n = count_entries es in
        (
          0x19 ∷ (to_bytes 4 n ++ (put_int 1 t ++ body)),
          rw (pack_nat_lem n h.1, pack_signed_lem 1 t h.0, wrote) refl,
          λ rest fuel asked takes deep.
              read_object_at g 0x19 maps (depth_entries es) fuel asked
                ((to_bytes 4 n ++ (put_int 1 t ++ body)) ++ rest) _
                (class_for_lem asked 0x19 maps takes refl refl) deep
                (λ f enough.
                  rw
                    (
                      append_assoc,
                      field-to_bytes 4 n ((put_int 1 t ++ body) ++ rest) (omega (arith, h.1)),
                      append_assoc,
                      get_int-put_int 1 t (body ++ rest) (omega arith) h.0,
                      back rest f enough,
                      h.3,
                    )
                    refl),
        )
    value-Trip (binary c version xs) h =
        binary-Trip g c version xs h.0 h.1 (fields_trip xs c.schema h.2)
    value-Trip (wrapped payload offset) h = absurd h

    pub items_trip : (xs : Items) → ItemsHold g xs → ItemsTrip g xs
    items_trip nil h = ([], refl, λ rest fuel deep. refl)
    items_trip (cons x xs) h =
        let (b, wrote, back) = value-Trip x h.0 in
        let (bs, wrote_all, back_all) = items_trip xs h.1 in
        (
          b ++ bs,
          rw (wrote, wrote_all) refl,
          λ rest fuel deep.
              rw
                (
                  append_assoc,
                  back (bs ++ rest) fuel none (Takes-none x) (omega arith),
                  back_all rest fuel (omega arith),
                )
                refl,
        )

    pub entries_trip : (es : Entries) → EntriesHold g es → EntriesTrip g es
    entries_trip end h = ([], refl, λ rest fuel deep. refl)
    entries_trip (entry k v es) h =
        let (kb, wrote_key, back_key) = value-Trip k h.0 in
        let (vb, wrote_value, back_value) = value-Trip v h.1 in
        let (bs, wrote_all, back_all) = entries_trip es h.2 in
        (
          kb ++ (vb ++ bs),
          rw (wrote_key, wrote_value, wrote_all) refl,
          λ rest fuel deep.
              rw
                (
                  append_assoc,
                  back_key ((vb ++ bs) ++ rest) fuel none (Takes-none k) (omega arith),
                  append_assoc,
                  back_value (bs ++ rest) fuel none (Takes-none v) (omega arith),
                  back_all rest fuel (omega arith),
                )
                refl,
        )

    fields_trip :
        (xs : Items) (schema : List (Text × DataClass))
        → FieldsHold g xs schema
        → FieldsTrip g schema xs
    fields_trip nil [] h = ([], refl, refl, λ rest fuel deep. refl)
    fields_trip nil ((field_name, c) ∷ others) h = absurd h
    fields_trip (cons x xs) [] h = absurd h
    fields_trip (cons x xs) ((field_name, c) ∷ others) h =
        let (part, wrote, back) = value-Trip x h.1 in
        let (parts, wrote_all, count, back_all) = fields_trip xs others h.2 in
        (
          part ∷ parts,
          rw (wrote, wrote_all) refl,
          ap suc count,
          λ rest fuel deep.
              rw
                (
                  append_assoc,
                  back (concat parts ++ rest) fuel (some c) h.0 (omega arith),
                  back_all rest fuel (omega arith),
                )
                refl,
        )

  -- What is written of a value that the format holds reads back, elements, keys, fields and all, before
  -- anything that follows, with as much room on the stack as the value is nested: by its type code, or
  -- as an object of the class that it has.
  pub write_value-read_value : (v : Value) → ValueHolds g v → Trip g v
  write_value-read_value v h = value-Trip v h
