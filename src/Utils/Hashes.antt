-- ===== src/Utils/Hashes.antt =====
-- The hash codes, with wrapping after every step and at the end.
use python_thin_client.Prelude.{ℕ, ◌^◌, ◌≡◌, refl, ap, sym, ◌∙◌, List, [], ◌∷◌, arith, bit_xor}
use python_thin_client.Prelude.Int.{ℤ, pos, negsuc, ◌+ℤ◌, ◌-ℤ◌, ◌*ℤ◌}
use python_thin_client.Prelude.Bits.{bit_and-ones, bit_xor-bit}
use python_thin_client.Prelude.Numbers.{
  and_mask, xor_mask, signed, signed_step_32, signed-signed_32,
}
use python_thin_client.Utils.{
  Hashed, nothing, str, bytes, int_overflow, hashcode_chars, hashcode_octets, hashcode,
}

-- `int_overflow` is the C conversion to a signed integer of 32 bits.
pub int_overflow-signed : (v : ℤ) → int_overflow v ≡ signed 32 v
unfolding int_overflow and_mask xor_mask signed ◌-ℤ◌
int_overflow-signed (pos a) = ground (arith, bit_and-ones 32 (bit_xor a (2 ^ 31)), bit_xor-bit 31 a)
int_overflow-signed (negsuc a) =
    ground (arith, bit_and-ones 32 (bit_xor a (2 ^ 31)), bit_xor-bit 31 a)

-- The sum of the characters (or signed bytes) times powers of 31, by Horner's rule, unbounded.
unfoldable pub horner : (ℕ → ℤ) → ℤ → List ℕ → ℤ
horner f v [] = v
horner f v (c ∷ cs) = horner f (pos 31 *ℤ v +ℤ f c) cs

abbrev pub octet : ℕ → ℤ
octet b = signed 8 (pos b)

horner-signed :
    (f : ℕ → ℤ) (cs : List ℕ) (v : ℤ)
    → signed 32 (horner f (signed 32 v) cs) ≡ signed 32 (horner f v cs)
unfolding horner
horner-signed f [] v = signed-signed_32 v
horner-signed f (c ∷ cs) v =
    sym (horner-signed f cs (pos 31 *ℤ signed 32 v +ℤ f c))
    ∙ ap (λ t. signed 32 (horner f t cs)) (signed_step_32 v (f c))
    ∙ horner-signed f cs (pos 31 *ℤ v +ℤ f c)

hashcode_chars-horner :
    (cs : List ℕ) (v : ℤ) → hashcode_chars (signed 32 v) cs ≡ signed 32 (horner pos v cs)
unfolding hashcode_chars horner
hashcode_chars-horner [] v = refl
hashcode_chars-horner (c ∷ cs) v =
    ap (λ t. hashcode_chars t cs)
      (int_overflow-signed (pos 31 *ℤ signed 32 v +ℤ pos c) ∙ signed_step_32 v (pos c))
    ∙ hashcode_chars-horner cs (pos 31 *ℤ v +ℤ pos c)

hashcode_octets-horner :
    (cs : List ℕ) (v : ℤ) → hashcode_octets (signed 32 v) cs ≡ signed 32 (horner octet v cs)
unfolding hashcode_octets horner
hashcode_octets-horner [] v = refl
hashcode_octets-horner (c ∷ cs) v =
    ap (λ t. hashcode_octets t cs)
      (int_overflow-signed (pos 31 *ℤ signed 32 v +ℤ octet c) ∙ signed_step_32 v (octet c))
    ∙ hashcode_octets-horner cs (pos 31 *ℤ v +ℤ octet c)

abbrev pub hash_sum : Hashed → ℤ
hash_sum nothing = pos 0
hash_sum (str cs) = horner pos (pos 0) cs
hash_sum (bytes bs) = horner octet (pos 1) bs

-- The hash code of None is 0, that of a text is the signed 32-bit value of the sum of its code
-- points times powers of 31, and that of a buffer is the same of its signed bytes from 1 on.
pub hashcode_lem : (h : Hashed) → hashcode h ≡ signed 32 (hash_sum h)
unfolding hashcode signed
hashcode_lem nothing = refl
hashcode_lem (str cs) = hashcode_chars-horner cs (pos 0)
hashcode_lem (bytes bs) = hashcode_octets-horner bs (pos 1)
