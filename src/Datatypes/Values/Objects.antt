-- ===== src/Datatypes/Values/Objects.antt =====
-- Reading binary objects back.
use python_thin_client.Prelude.{
  ℕ, suc, ◌+◌, ◌≡◌, refl, ap, ◌∙◌, Bool, true, false, Option, none, some, List, [], ◌∷◌, ◌++◌,
  concat, length, append_assoc, arith,
}
use python_thin_client.Prelude.Int.{ℤ, pos}
use python_thin_client.Prelude.Outcome.{ok, raised}
use python_thin_client.Prelude.Dict.{lookup}
use python_thin_client.Datatypes.Wire.{Stream, Result, runtime_error, raw, raw-append}
use python_thin_client.Datatypes.Scalars.{Fits}
use python_thin_client.Datatypes.Scalars.Laws.{get_int_any, get_int-put_int}
use python_thin_client.Utils.{Text, hashcode, bytes, fields, schema_id}
use python_thin_client.Datatypes.Binary.{
  tc_complex_object, flags_of, offsets_of, offset_size, elements, footer_size, name_id, header_len,
  write_object,
}
use python_thin_client.Datatypes.Binary.Footer.{flags_lem, length-schema}
use python_thin_client.Datatypes.Binary.Identifiers.{name_id-Fits, schema_id-Fits}
use python_thin_client.Datatypes.Values.{
  Value, binary, Items, BinaryClass, Binaries, DataClass, binary_objects, names_of, is_compact,
  agrees, tc_map, write_value, read_fields, get_dataclass, read_binary, read_as, read_object,
}
use python_thin_client.Datatypes.Values.Depth.{depth, depth_items}
use python_thin_client.Datatypes.Values.Elements.{class_for_lem, IsRegistered}
use python_thin_client.Datatypes.Values.Trips.{Trip, FieldsTrip, read_object_at}

agrees-is_compact : (approach : Option Bool) → agrees approach (is_compact approach) ≡ true
unfolding agrees is_compact
agrees-is_compact none = refl
agrees-is_compact (some true) = refl
agrees-is_compact (some false) = refl

length-names_of : (schema : List (Text × DataClass)) → length (names_of schema) ≡ length schema
length-names_of [] = refl
length-names_of ((name, c) ∷ schema) = ap suc (length-names_of schema)

module _ (g : Binaries) (c : BinaryClass) (version : ℤ) (parts : List (List ℕ)) where
  abbrev written : List ℕ
  written =
      write_object g.lower (is_compact g.approach) version c.type_name (names_of c.schema) parts

  get_dataclass_lem :
      (read : Option DataClass → Stream → Result (Value × Stream))
      → IsRegistered g c
      → get_dataclass g read
          (name_id g.lower c.type_name)
          (schema_id g.lower (fields (names_of c.schema)))
        ≡ ok c
  unfolding get_dataclass
  get_dataclass_lem read known =
      ap (λ (o : Option BinaryClass). elim o [ some d ↦ ok d | none ↦ raised runtime_error ]) known

  read_binary_lem :
      (read : Option DataClass → Stream → Result (Value × Stream)) (xs : Items) (rest : Stream)
      → Fits 8 version
      → IsRegistered g c
      → length c.schema ≡ length parts
      → ((more : Stream) → read_fields g read c.schema (concat parts ++ more) ≡ ok (xs, more))
      → read_binary g read (written ++ rest) ≡ ok (binary c version xs, rest)
  unfolding read_binary write_object
  read_binary_lem read xs rest hv known count back =
      let compact = is_compact g.approach in
      let names = names_of c.schema in
      let body = concat parts in
      let flags = flags_of compact (offsets_of parts) in
      let schema =
        concat (elements g.lower compact (offset_size (pos flags)) names (offsets_of parts)) in
      let size = length body + header_len in
      let (same, _, small, _) = flags_lem compact (offsets_of parts) in
      let named : length names ≡ length parts = length-names_of c.schema ∙ count in
      let skipped : raw (footer_size (pos flags) (length c.schema)) (schema ++ rest)
          ≡ ok (schema, rest) =
        rw (count, ← length-schema g.lower compact version c.type_name names parts named)
          (raw-append schema rest) in
      rw
        (
          append_assoc,
          get_int-put_int 1 version _ (omega arith) hv,
          append_assoc,
          get_int-put_int 2 (pos flags) _ (omega arith) (omega (arith, small)),
          append_assoc,
          get_int-put_int 4 (name_id g.lower c.type_name) _ (omega arith)
              (name_id-Fits g.lower c.type_name),
          append_assoc,
          get_int_any 4 (hashcode (bytes body)),
          append_assoc,
          get_int_any 4 (pos (size + length schema)),
          append_assoc,
          get_int-put_int 4 (schema_id g.lower (fields names)) _ (omega arith)
              (schema_id-Fits g.lower names),
          append_assoc,
          get_int_any 4 (pos size),
          append_assoc,
          get_dataclass_lem read known,
          back (schema ++ rest),
          skipped,
          same,
          agrees-is_compact g.approach,
        )
        refl

pub binary-Trip :
    (g : Binaries) (c : BinaryClass) (version : ℤ) (xs : Items)
    → Fits 8 version
    → IsRegistered g c
    → FieldsTrip g c.schema xs
    → Trip g (binary c version xs)
unfolding write_value read_as depth tc_map lookup
binary-Trip g c version xs hv known (parts, wrote, count, back) = (
  tc_complex_object ∷ written g c version parts,
  rw wrote refl,
  λ rest fuel asked takes deep.
      read_object_at g tc_complex_object binary_objects (depth_items xs) fuel asked _ _
        (class_for_lem asked tc_complex_object binary_objects takes refl refl) deep
        (λ f enough.
          read_binary_lem g c version parts (read_object g f) xs rest hv known count
            (λ more. back more f enough)),
)
