-- ===== src/Utils/Fnv.antt =====
-- The schema ID, and the FNV-1 hash in 32 bits.
use python_thin_client.Prelude.{
  ℕ, ◌*◌, ◌/◌, ◌%◌, ◌^◌, ◌<◌, ◌≡◌, refl, ap, sym, ◌∙◌, List, [], ◌∷◌, ◌++◌, arith, bit_xor,
}
use python_thin_client.Prelude.Int.{ℤ, pos, ◌*ℤ◌}
use python_thin_client.Prelude.Numbers.{
  and_mask, xor_mask, and_mask-ones, unsigned-xor_mask, signed, unsigned, to_signed, shift_right,
  unsigned-signed_32, signed-signed_32,
}
use python_thin_client.Utils.{
  Text, str, hashcode, int_overflow, schema_field, schema_fields, schema_id, fields, fnv1_prime,
  fnv1_offset_basis,
}
use python_thin_client.Utils.Hashes.{int_overflow-signed}

-- FNV-1 on 32-bit words: multiply after the byte is mixed in.
unfoldable pub fnv1_round : ℕ → ℕ → ℕ
fnv1_round h b = bit_xor h b * fnv1_prime % 2 ^ 32

unfoldable pub fnv1 : ℕ → List ℕ → ℕ
fnv1 h [] = h
fnv1 h (b ∷ bs) = fnv1 (fnv1_round h b) bs

-- a word, lowest byte first
abbrev pub word_bytes : ℕ → List ℕ
word_bytes w = (w % 256) ∷ (w / 256 % 256) ∷ (w / 65536 % 256) ∷ (w / 16777216 % 256) ∷ []

byte_0 : (v : ℤ) → and_mask v 0xff ≡ unsigned 32 v % 256
byte_0 v = and_mask-ones 8 v ∙ unfold unsigned in ground arith

byte_8 : (v : ℤ) → and_mask (shift_right v 8) 0xff ≡ unsigned 32 v / 256 % 256
unfolding unsigned shift_right
byte_8 v = and_mask-ones 8 (shift_right v 8) ∙ ground arith

byte_16 : (v : ℤ) → and_mask (shift_right v 16) 0xff ≡ unsigned 32 v / 65536 % 256
unfolding unsigned shift_right
byte_16 v = and_mask-ones 8 (shift_right v 16) ∙ ground arith

byte_24 : (v : ℤ) → and_mask (shift_right v 24) 0xff ≡ unsigned 32 v / 16777216 % 256
unfolding unsigned shift_right
byte_24 v = and_mask-ones 8 (shift_right v 24) ∙ ground arith

unsigned_product : (x : ℤ) → unsigned 32 (x *ℤ pos fnv1_prime) ≡ unsigned 32 x * fnv1_prime % 2 ^ 32
unfolding unsigned ◌*ℤ◌
unsigned_product x = ground arith

-- One step of the Python loop, seen as a word.
round_word :
    (v : ℤ) (b c : ℕ)
    → b ≡ c
    → c < 256
    → unsigned 32 (int_overflow (xor_mask v b *ℤ pos fnv1_prime)) ≡ fnv1_round (unsigned 32 v) c
unfolding fnv1_round
round_word v b c e h =
    ap (unsigned 32) (int_overflow-signed (xor_mask v b *ℤ pos fnv1_prime))
    ∙ unsigned-signed_32 (xor_mask v b *ℤ pos fnv1_prime)
    ∙ unsigned_product (xor_mask v b)
    ∙ ap (λ t. t * fnv1_prime % 2 ^ 32)
        (unsigned-xor_mask 32 v b (rw e (omega arith)) ∙ ap (bit_xor (unsigned 32 v)) e)

module _ (lower : Text → Text) where
  -- the bytes of the field IDs of a schema, in order
  abbrev pub field_bytes : List Text → List ℕ
  field_bytes [] = []
  field_bytes (f ∷ fs) = word_bytes (unsigned 32 (hashcode (str (lower f)))) ++ field_bytes fs

  schema_field-fnv1 :
      (v : ℤ) (f : Text)
      → unsigned 32 (schema_field lower v f)
        ≡ fnv1 (unsigned 32 v) (word_bytes (unsigned 32 (hashcode (str (lower f)))))
  unfolding schema_field fnv1
  schema_field-fnv1 v f =
      let h = hashcode (str (lower f)) in
      round_word _ _ _ (byte_24 h) (omega arith)
      ∙ ap (λ t. fnv1_round t (unsigned 32 h / 16777216 % 256))
          (round_word _ _ _ (byte_16 h) (omega arith)
            ∙ ap (λ t. fnv1_round t (unsigned 32 h / 65536 % 256))
                (round_word _ _ _ (byte_8 h) (omega arith)
                  ∙ ap (λ t. fnv1_round t (unsigned 32 h / 256 % 256))
                      (round_word _ _ _ (byte_0 h) (omega arith))))

  schema_fields-fnv1 :
      (fs : List Text) (v : ℤ)
      → unsigned 32 (schema_fields lower v fs) ≡ fnv1 (unsigned 32 v) (field_bytes fs)
  unfolding schema_fields fnv1
  schema_fields-fnv1 [] v = refl
  schema_fields-fnv1 (f ∷ fs) v =
      schema_fields-fnv1 fs (schema_field lower v f)
      ∙ ap (λ t. fnv1 t (field_bytes fs)) (schema_field-fnv1 v f)

  schema_field-signed :
      (v : ℤ) (f : Text) → schema_field lower v f ≡ signed 32 (schema_field lower v f)
  unfolding schema_field
  schema_field-signed v f = wrapped _
    where
      wrapped : (x : ℤ) → int_overflow x ≡ signed 32 (int_overflow x)
      wrapped x = rw int_overflow-signed (sym (signed-signed_32 x))

  schema_fields-signed :
      (fs : List Text) (v : ℤ)
      → v ≡ signed 32 v
      → schema_fields lower v fs ≡ signed 32 (schema_fields lower v fs)
  unfolding schema_fields
  schema_fields-signed [] v h = h
  schema_fields-signed (f ∷ fs) v h =
      schema_fields-signed fs (schema_field lower v f) (schema_field-signed v f)

  -- The ID of a schema without fields is 0; that of any other is the signed reading of the 32-bit
  -- FNV-1 hash, from the offset basis, of the bytes of the hash codes of its lower-case names.
  pub schema_id-fnv1 :
      (f : Text) (fs : List Text)
      → (schema_id lower (fields []) ≡ pos 0)
        × (schema_id lower (fields (f ∷ fs))
            ≡ to_signed 32 (fnv1 fnv1_offset_basis (field_bytes (f ∷ fs))))
  unfolding schema_id signed unsigned
  schema_id-fnv1 f fs = (
    refl,
    schema_fields-signed fs _ (schema_field-signed (pos fnv1_offset_basis) f)
        ∙ ap (to_signed 32) (schema_fields-fnv1 (f ∷ fs) (pos fnv1_offset_basis)),
  )
