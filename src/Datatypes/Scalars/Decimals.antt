-- ===== src/Datatypes/Scalars/Decimals.antt =====
-- The magnitude of a decimal: highest byte first, with room for the sign in the top bit.
use python_thin_client.Prelude.{
  ℕ, zero, suc, ◌+◌, ◌*◌, ◌/◌, ◌%◌, ◌^◌, ◌≤◌, ◌<◌, ◌≡◌, refl, ap, sym, ◌∙◌, Bool, true, false, List,
  [], ◌∷◌, ◌++◌, ◌==◌, length, bit_and, bit_or, not, arith, ◌&&◌, length-append, Bool-cases, inl,
  inr,
}
use python_thin_client.Prelude.Bits.{holds_below, holds_below_lem}
use python_thin_client.Prelude.Numbers.{pow-add, quotient-lt}
use python_thin_client.Prelude.Int.{ℤ}
use python_thin_client.Prelude.Outcome.{ok}
use python_thin_client.Datatypes.Wire.{to_bytes, from_bytes, length-to_bytes, from_bytes-to_bytes}
use python_thin_client.Datatypes.Scalars.{decimal, bit_length, decimal_length, set_sign}
use python_thin_client.Datatypes.Scalars.Parse.{decimal_value}
use python_thin_client.Datatypes.Context.{IsNormal, scaled-IsNormal}
use native.Mathlib.Nat.{pow-suc, one-le-pow, pow-le-pow_right, div-div-eq-div-mul}
use python_thin_client.Datatypes.Scalars.Laws.{pow_bytes}
use mathlib.Core.List.{reverse, reverse-cons, reverse-append, reverse-reverse}

pub lt-bit_length : (fuel v : ℕ) → v ≤ fuel → v < 2 ^ bit_length fuel v
unfolding bit_length
lt-bit_length zero v h = omega arith
lt-bit_length (suc fuel) v h = elim (Bool-cases (v == 0)) [
  | inl none_left ↦ rw none_left (ground arith)
  | inr more ↦ rw more (
      ground (
        arith,
        lt-bit_length fuel (v / 2) (omega arith),
        pow-suc 2 (bit_length fuel (v / 2)),
        add_one (bit_length fuel (v / 2)),
      ))
]
  where
    add_one : (r : ℕ) → 2 ^ (r + 1) ≡ 2 ^ r * 2
    add_one r = pow-add r 1

-- The length leaves the top bit of the highest byte free.
decimal_length_room : (v : ℕ) → (m : ℕ) × (decimal_length v ≡ suc m) × (v < 128 * 256 ^ m)
unfolding decimal_length
decimal_length_room v =
    let l = bit_length v v in
    let m = l / 8 in
    (
      m,
      omega arith,
      omega (
        arith,
        lt-bit_length v v (omega arith),
        pow-le-pow_right {n = 2} (omega arith) {i = l} {j = 7 + 8 * m} (omega arith),
        pow-add 7 (8 * m),
        pow_bytes m,
      ),
    )

to_bytes_snoc : (m v : ℕ) → to_bytes (suc m) v ≡ to_bytes m v ++ ((v / 256 ^ m % 256) ∷ [])
unfolding to_bytes
to_bytes_snoc zero v = ap (λ t. (t ∷ [])) (omega arith)
to_bytes_snoc (suc m) v =
    ap (λ t. (v % 256) ∷ t)
      (to_bytes_snoc m (v / 256)
        ∙ ap (λ t. to_bytes m (v / 256) ++ ((t % 256) ∷ []))
            (div-div-eq-div-mul v 256 (256 ^ m) ∙ ap (λ t. v / t) (omega (arith, pow-suc 256 m))))

-- The length of a list is kept when it is reversed.
length-reverse : (xs : List ℕ) → length (reverse xs) ≡ length xs
length-reverse [] = refl
length-reverse (x ∷ xs) =
    ap length (reverse-cons x xs)
    ∙ length-append (reverse xs) (x ∷ [])
    ∙ omega (arith, length-reverse xs)

-- A byte below 128 keeps its value when the sign is put in and taken out.
plain_byte : (b : ℕ) → b < 128 → (bit_and b 0x80 ≡ 0) × (bit_and b 0x7f ≡ b)
plain_byte b h = ground (
  arith,
  holds_below_lem 128 (λ x. bit_and x 0x80 == 0 && bit_and x 0x7f == x) b
      (unfold holds_below in refl) h,
)

signed_byte :
    (b : ℕ) → b < 128 → (bit_and (bit_or b 0x80) 0x80 ≡ 128) × (bit_and (bit_or b 0x80) 0x7f ≡ b)
signed_byte b h = ground (
  arith,
  holds_below_lem 128
      (λ x. bit_and (bit_or x 0x80) 0x80 == 128 && bit_and (bit_or x 0x80) 0x7f == x) b
      (unfold holds_below in refl) h,
)

-- The sign, the digits and the places of a decimal that comes back: minus zero does not.
abbrev pub IsDecimal : Bool → ℕ → ℤ → Type 0
IsDecimal sign c s = IsNormal c s × ((sign && not (c == 0)) ≡ sign)

decimal_value-set_sign :
    (sign : Bool) (b : ℕ) (bs : List ℕ) (v : ℕ) (scale : ℤ)
    → b < 128
    → from_bytes (reverse (b ∷ bs)) ≡ v
    → IsDecimal sign v scale
    → decimal_value (set_sign sign (b ∷ bs)) scale ≡ ok (decimal sign v scale)
unfolding decimal_value set_sign
decimal_value-set_sign true b bs v scale h e (normal, kept) =
    rw ((signed_byte b h).0, (signed_byte b h).1, e, scaled-IsNormal v scale normal)
      (ap (λ t. ok (decimal t v scale)) kept)
decimal_value-set_sign false b bs v scale h e (normal, kept) =
    rw ((plain_byte b h).1)
      (rw ((plain_byte b h).0, (plain_byte b h).1, e, scaled-IsNormal v scale normal) refl)

length-set_sign :
    (sign : Bool) (b : ℕ) (bs : List ℕ) → length (set_sign sign (b ∷ bs)) ≡ length (b ∷ bs)
unfolding set_sign
length-set_sign true b bs = refl
length-set_sign false b bs = refl

mod-small : {x : ℕ} → x < 128 → x % 256 < 128
mod-small h = omega arith

-- The bytes of the magnitude, and that they give the magnitude and the sign back.
pub decimal_bytes :
    (sign : Bool) (v : ℕ) (scale : ℤ)
    → IsDecimal sign v scale
    → (data_bytes : List ℕ) × (set_sign sign (reverse (to_bytes (decimal_length v) v)) ≡ data_bytes)
      × (length data_bytes ≡ decimal_length v)
      × (decimal_value data_bytes scale ≡ ok (decimal sign v scale))
decimal_bytes sign v scale normal =
    let (m, count, room) = decimal_length_room v in
    let top = v / 256 ^ m % 256 in
    let low = reverse (to_bytes m v) in
    let bytes : reverse (to_bytes (decimal_length v) v) ≡ top ∷ low =
      ap (λ n. reverse (to_bytes n v)) count
      ∙ ap reverse (to_bytes_snoc m v)
      ∙ reverse-append (to_bytes m v) (top ∷ []) in
    let back : from_bytes (reverse (top ∷ low)) ≡ v =
      ap (λ t. from_bytes (reverse t)) (sym bytes)
      ∙ ap from_bytes (reverse-reverse (to_bytes (decimal_length v) v))
      ∙ from_bytes-to_bytes (decimal_length v) v (rw count (omega (arith, pow-suc 256 m))) in
    (
      set_sign sign (top ∷ low),
      ap (set_sign sign) bytes,
      length-set_sign sign top low
          ∙ ap length (sym bytes)
          ∙ length-reverse (to_bytes (decimal_length v) v)
          ∙ length-to_bytes (decimal_length v) v,
      decimal_value-set_sign sign top low v scale
          (mod-small (quotient-lt 128 (256 ^ m) v (one-le-pow m 256 (omega arith)) room)) back
          normal,
    )
