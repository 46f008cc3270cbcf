-- ===== src/Datatypes/Binary/Footer.antt =====
-- The footer of a binary object, as a reader of the protocol uses it.
use python_thin_client.Prelude.{
  ℕ, zero, suc, ◌+◌, ◌*◌, ◌^◌, ◌≤◌, ◌<◌, ◌≡◌, ◌⊎◌, inl, inr, refl, sym, ap, ◌∙◌, Bool, true, false,
  ltb, if◌then◌else◌, List, [], ◌∷◌, ◌++◌, append_assoc, get_elem?, some, drop, length, concat,
  concat-append, length-append, All, arith, Bool-cases, ltb→lt,
}
use python_thin_client.Prelude.Int.{ℤ, pos}
use python_thin_client.Prelude.Numbers.{and_mask, unsigned}
use python_thin_client.Datatypes.Wire.{to_bytes, length-to_bytes, from_bytes-to_bytes}
use python_thin_client.Datatypes.Scalars.{put_int}
use python_thin_client.Utils.{Text, hashcode, bytes, fields, schema_id}
use python_thin_client.Datatypes.Binary.{
  max_of, offsets_of, flags_of, offset_flag, has_flag, offset_size, element_size, footer_size,
  compact_footer, has_schema, header_len, tc_complex_object, name_id, elements, write_object,
}
use python_thin_client.Datatypes.Binary.Offsets.{offsets_of-starts, length-starts, max_of-starts}
use python_thin_client.Datatypes.Binary.Positions.{
  number_at, number_at-to_bytes, drop_element, drop_behind, element_at, starts-get_elem?,
  length-elements, get_elem?-le-max_of,
}

offset_flag_cases :
    (os : List ℕ)
    → ((offset_flag os ≡ 8) × (max_of os < 256))
      ⊎ (((offset_flag os ≡ 16) × (max_of os < 65536)) ⊎ (offset_flag os ≡ 0))
unfolding offset_flag
offset_flag_cases os = elim (Bool-cases (ltb (max_of os) 255)) [
  | inl small ↦ inl (rw small refl, omega (arith, ltb→lt (max_of os) 255 small))
  | inr large ↦ elim (Bool-cases (ltb (max_of os) 65535)) [
    | inl small ↦ inr (inl (rw (large, small) refl, omega (arith, ltb→lt (max_of os) 65535 small)))
    | inr huge ↦ inr (inr (rw (large, huge) refl))
  ]
]

-- What the flags of an object say.
abbrev pub FlagsSay : Bool → List ℕ → Type 0
FlagsSay compact os =
    (has_flag (pos (flags_of compact os)) compact_footer ≡ compact)
    × (has_flag (pos (flags_of compact os)) has_schema ≡ true)
    × (flags_of compact os < 2 ^ 15)
    × (max_of os < 2 ^ 32 → max_of os < 256 ^ offset_size (pos (flags_of compact os)))

pub flags_lem : (compact : Bool) (os : List ℕ) → FlagsSay compact os
unfolding flags_of has_flag offset_size and_mask
flags_lem true os = elim (offset_flag_cases os) [
  | inl (e, small) ↦ rw e (refl, refl, omega arith, λ h. omega arith)
  | inr (inl (e, small)) ↦ rw e (refl, refl, omega arith, λ h. omega arith)
  | inr (inr e) ↦ rw e (refl, refl, omega arith, λ h. omega arith)
]
flags_lem false os = elim (offset_flag_cases os) [
  | inl (e, small) ↦ rw e (refl, refl, omega arith, λ h. omega arith)
  | inr (inl (e, small)) ↦ rw e (refl, refl, omega arith, λ h. omega arith)
  | inr (inr e) ↦ rw e (refl, refl, omega arith, λ h. omega arith)
]

-- What a reader of the protocol finds: the flags are at 2, the position of the footer at 20, and the
-- footer has an entry for each field, of the offset alone if it is compact and else behind the
-- identifier of the field.
abbrev entry_offset : ℕ → ℕ → ℕ → List ℕ → ℕ
entry_offset flags footer i object =
    number_at
      (footer
        + (i * element_size (pos flags) + (if has_flag (pos flags) compact_footer then 0 else 4)))
      (offset_size (pos flags)) object

abbrev pub field_offset : ℕ → List ℕ → ℕ
field_offset i object = entry_offset (number_at 2 2 object) (number_at 20 4 object) i object

abbrev width : Bool → ℕ → ℕ
width compact size = if compact then size else 4 + size

module _ (lower : Text → Text) (size : ℕ) where
  elements_sizes :
      (compact : Bool) (names : List Text) (os : List ℕ)
      → length names ≡ length os
      → All (λ x. length x ≡ width compact size) (elements lower compact size names os)
        × (length (elements lower compact size names os) ≡ length os)
  unfolding elements put_int
  elements_sizes true names [] e = (tt, refl)
  elements_sizes true [] (o ∷ os) e = absurd (omega arith)
  elements_sizes true (name ∷ names) (o ∷ os) e =
      let (sizes, count) = elements_sizes true names os (omega arith) in
      ((length-to_bytes size o, sizes), ap suc count)
  elements_sizes false [] [] e = (tt, refl)
  elements_sizes false [] (o ∷ os) e = absurd (omega arith)
  elements_sizes false (name ∷ names) [] e = absurd (omega arith)
  elements_sizes false (name ∷ names) (o ∷ os) e =
      let (sizes, count) = elements_sizes false names os (omega arith) in
      (
        (
          omega (
            arith,
            length-append (put_int 4 (name_id lower name)) (to_bytes size o),
            length-to_bytes size o,
            length-to_bytes 4 (unsigned 32 (name_id lower name)),
          ),
          sizes,
        ),
        ap suc count,
      )

  elements-get_elem? :
      (compact : Bool) (names : List Text) (os : List ℕ) (i o : ℕ)
      → length names ≡ length os
      → get_elem? os i ≡ some o
      → (before : List ℕ) × (length before ≡ (if compact then 0 else 4))
        × (get_elem? (elements lower compact size names os) i ≡ some (before ++ to_bytes size o))
  unfolding elements put_int
  elements-get_elem? compact names [] i o e there = cc
  elements-get_elem? compact [] (p ∷ os) i o e there = absurd (omega arith)
  elements-get_elem? true (name ∷ names) (p ∷ os) zero o e there = ([], refl, cc)
  elements-get_elem? true (name ∷ names) (p ∷ os) (suc i) o e there =
      elements-get_elem? true names os i o (omega arith) there
  elements-get_elem? false (name ∷ names) (p ∷ os) zero o e there =
      (put_int 4 (name_id lower name), length-to_bytes 4 _, cc)
  elements-get_elem? false (name ∷ names) (p ∷ os) (suc i) o e there =
      elements-get_elem? false names os i o (omega arith) there

element_size-width :
    (compact : Bool) (flags : ℤ)
    → has_flag flags compact_footer ≡ compact
    → element_size flags ≡ width compact (offset_size flags)
unfolding element_size
element_size-width compact flags e = rw e refl

module _ (lower : Text → Text) (compact : Bool) (version : ℤ) (type_name : Text) (names : List Text)
    (parts : List (List ℕ)) where
  abbrev object : List ℕ
  object = tc_complex_object ∷ write_object lower compact version type_name names parts

  abbrev flags : ℕ
  flags = flags_of compact (offsets_of parts)

  abbrev schema : List ℕ
  schema = concat (elements lower compact (offset_size (pos flags)) names (offsets_of parts))

  -- The object from the front: the flags, the position of the footer, and the end of the header.
  object_front :
      length (concat parts) + header_len < 2 ^ 32
      → (front : List ℕ) × (object ≡ front ++ (concat parts ++ schema))
        × (length front ≡ header_len)
        × (number_at 2 2 object ≡ flags)
        × (number_at 20 4 object ≡ length (concat parts) + header_len)
  unfolding write_object put_int to_bytes unsigned
  object_front small =
      let size = length (concat parts) + header_len in
      let middle =
        put_int 4 (name_id lower type_name)
        ++ (put_int 4 (hashcode (bytes (concat parts)))
            ++ (put_int 4 (pos (size + length schema))
                ++ put_int 4 (schema_id lower (fields names)))) in
      (
        tc_complex_object
            ∷ (put_int 1 version ++ (put_int 2 (pos flags) ++ (middle ++ put_int 4 (pos size)))),
        refl,
        refl,
        from_bytes-to_bytes 2 (unsigned 16 (pos flags)) (omega arith)
            ∙ omega (arith, (flags_lem compact (offsets_of parts)).2),
        from_bytes-to_bytes 4 (unsigned 32 (pos size)) (omega arith) ∙ omega arith,
      )

  -- The offset of a field stands in its element of the schema array, and fits there.
  schema_entry :
      (before after : List (List ℕ)) (part : List ℕ)
      → parts ≡ before ++ part ∷ after
      → length names ≡ length parts
      → length (concat parts) + header_len < 2 ^ 32
      → (id others : List ℕ) × (length id ≡ (if compact then 0 else 4))
        × (drop (length before * width compact (offset_size (pos flags))) schema
            ≡ (id ++ to_bytes (offset_size (pos flags)) (header_len + length (concat before)))
              ++ others)
        × (header_len + length (concat before) < 256 ^ offset_size (pos flags))
  schema_entry before after part e named small =
      let os = offsets_of parts in
      let o = header_len + length (concat before) in
      let size = offset_size (pos flags) in
      let count : length names ≡ length os =
        rw offsets_of-starts (named ∙ sym (length-starts header_len parts)) in
      let start : get_elem? os (length before) ≡ some o =
        rw (offsets_of-starts, e) (starts-get_elem? header_len before after part) in
      let (id, id_len, there) =
        elements-get_elem? lower size compact names os (length before) o count start in
      let (others, entry) =
        element_at (width compact size) (length before) (elements lower compact size names os)
          (id ++ to_bytes size o) (elements_sizes lower size compact names os count).0 there in
      let bounded : max_of os ≤ length (concat parts) + header_len =
        rw offsets_of-starts (omega (arith, max_of-starts header_len parts)) in
      let wide : max_of os < 256 ^ size = (flags_lem compact os).3 (omega (arith, bounded)) in
      (
        id,
        others,
        id_len,
        entry,
        omega (arith, get_elem?-le-max_of os (length before) o start, wide),
      )

  -- The entry of the footer for a field is the position of its bytes, in compact and in full footers
  -- and with offsets of one, two or four bytes: a reader of the protocol that goes to that position
  -- finds the bytes of the field. The class has a name for each field, and the object is shorter than
  -- 4 GB.
  pub field_offset_lem :
      (before after : List (List ℕ)) (part : List ℕ)
      → parts ≡ before ++ part ∷ after
      → length names ≡ length parts
      → length (concat parts) + header_len < 2 ^ 32
      → (rest : List ℕ) × (field_offset (length before) object
          ≡ header_len + length (concat before))
        × (drop (field_offset (length before) object) object ≡ part ++ rest)
  field_offset_lem before after part e named small =
      let (front, shape, front_len, flags_at, size_at) = object_front small in
      let o = header_len + length (concat before) in
      let size_of_all = length (concat parts) + header_len in
      let size = offset_size (pos flags) in
      let (id, others, id_len, entry, fits) = schema_entry before after part e named small in
      let is_compact = (flags_lem compact (offsets_of parts)).0 in
      let footer_at : length (front ++ concat parts) ≡ size_of_all =
        omega (arith, front_len, length-append front (concat parts)) in
      let at_entry : drop
            (size_of_all
              + (length before * element_size (pos flags)
                  + (if has_flag (pos flags) compact_footer then 0 else 4)))
            object
          ≡ to_bytes size o ++ others =
        rw (element_size-width compact (pos flags) is_compact, is_compact, shape, ← append_assoc)
          (drop_element size_of_all (length before) (width compact size) (if compact then 0 else 4)
            (front ++ concat parts) schema id (to_bytes size o) others footer_at id_len entry) in
      let located : field_offset (length before) object ≡ o =
        ap (λ f. entry_offset f (number_at 20 4 object) (length before) object) flags_at
        ∙ (ap (λ f. entry_offset flags f (length before) object) size_at
            ∙ number_at-to_bytes _ size o object others at_entry fits) in
      let rest = concat after ++ schema in
      let body : concat parts ++ schema ≡ concat before ++ (part ++ rest) =
        ap (λ ps. concat ps ++ schema) e ∙ simp (concat-append, append_assoc) refl in
      (
        rest,
        located,
        ap (λ n. drop n object) located
            ∙ (ap (λ b. drop o b) (shape ∙ ap (λ b. front ++ b) body)
                ∙ drop_behind header_len front (concat before) (part ++ rest) front_len),
      )

  -- The parser skips just the footer.
  pub length-schema :
      length names ≡ length parts → length schema ≡ footer_size (pos flags) (length parts)
  unfolding footer_size
  length-schema named =
      let count : length names ≡ length (offsets_of parts) =
        rw offsets_of-starts (named ∙ sym (length-starts header_len parts)) in
      let (is_compact, has_footer, _, _) = flags_lem compact (offsets_of parts) in
      let (sizes, number) =
        elements_sizes lower (offset_size (pos flags)) compact names (offsets_of parts) count in
      rw (has_footer, element_size-width compact (pos flags) is_compact)
        (length-elements (width compact (offset_size (pos flags))) _ sizes
          ∙ ap (λ n. n * width compact (offset_size (pos flags))) (number ∙ sym count ∙ named))
