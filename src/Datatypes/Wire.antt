-- ===== src/Datatypes/Wire.antt =====
-- Numbers as bytes, lowest first (`PROTOCOL_BYTE_ORDER`), and reading from a stream.
use python_thin_client.Prelude.{
  ℕ, zero, suc, ◌+◌, ◌*◌, ◌/◌, ◌%◌, ◌^◌, ◌<◌, ◌≡◌, refl, ap, sym, ◌∙◌, List, [], ◌∷◌, ◌++◌, arith,
  false, ltb, if◌then◌else◌, length, take, drop, All, take-append_self, drop-append_self,
  length-append,
}
use python_thin_client.Prelude.Int.{ℤ, pos, negsuc}
use python_thin_client.Prelude.Outcome.{Outcome, ok, raised}
use native.Mathlib.Nat.{pow-suc}

abbrev pub Stream : Type 0
Stream = List ℕ

abbrev pub IsByte : ℕ → Type 0
IsByte b = b < 256

-- What reading and writing can raise.
pub data CodecError : Type 0 where
  parse_error buffer_too_small overflow_error struct_error value_error index_error not_supported
        recursion_error type_error runtime_error warning attribute_error decimal_error :
      CodecError

abbrev pub Result {ℓ} : Type ℓ → Type ℓ
Result A = Outcome CodecError A

-- v is a signed number of w bits.
abbrev pub Fits : ℕ → ℤ → Type 0
Fits w (pos a) = 2 * a < 2 ^ w
Fits w (negsuc a) = 2 * a < 2 ^ w

-- v.to_bytes(n, 'little') of a number that fits, and what a field of n bytes keeps of any other
unfoldable pub to_bytes : ℕ → ℕ → List ℕ
to_bytes zero v = []
to_bytes (suc n) v = (v % 256) ∷ to_bytes n (v / 256)

-- int.from_bytes(b, 'little')
unfoldable pub from_bytes : List ℕ → ℕ
from_bytes [] = 0
from_bytes (b ∷ bs) = b + 256 * from_bytes bs

-- The next n bytes, and the position behind them.
unfoldable pub raw : ℕ → Stream → Result (List ℕ × Stream)
raw n s = if ltb (length s) n then raised buffer_too_small else ok (take n s, drop n s)

-- An unsigned number of n bytes.
unfoldable pub field : ℕ → Stream → Result (ℕ × Stream)
field n s =
    if ltb (length s) n then raised buffer_too_small else ok (from_bytes (take n s), drop n s)

pub length-to_bytes : (n v : ℕ) → length (to_bytes n v) ≡ n
unfolding to_bytes
length-to_bytes zero v = refl
length-to_bytes (suc n) v = ap suc (length-to_bytes n (v / 256))

pub to_bytes-IsByte : (n v : ℕ) → All IsByte (to_bytes n v)
unfolding to_bytes
to_bytes-IsByte zero v = tt
to_bytes-IsByte (suc n) v = (omega arith, to_bytes-IsByte n (v / 256))

pub from_bytes-to_bytes : (n v : ℕ) → v < 256 ^ n → from_bytes (to_bytes n v) ≡ v
unfolding from_bytes to_bytes
from_bytes-to_bytes zero v h = omega arith
from_bytes-to_bytes (suc n) v h =
    omega (arith, from_bytes-to_bytes n (v / 256) (omega (arith, pow-suc 256 n)))

pub from_bytes-lt : (bs : List ℕ) → All IsByte bs → from_bytes bs < 256 ^ length bs
unfolding from_bytes
from_bytes-lt [] h = omega arith
from_bytes-lt (b ∷ bs) h = omega (arith, pow-suc 256 (length bs), from_bytes-lt bs h.1)

pub to_bytes-from_bytes : (bs : List ℕ) → All IsByte bs → to_bytes (length bs) (from_bytes bs) ≡ bs
unfolding from_bytes to_bytes
to_bytes-from_bytes [] h = refl
to_bytes-from_bytes (b ∷ bs) h =
    let low : (b + 256 * from_bytes bs) % 256 ≡ b = omega arith in
    let high : (b + 256 * from_bytes bs) / 256 ≡ from_bytes bs = omega arith in
    rw (low, high) (ap (λ t. b ∷ t) (to_bytes-from_bytes bs h.1))

-- Reading takes back the bytes that stand at the position.
pub raw-append : (xs rest : List ℕ) → raw (length xs) (xs ++ rest) ≡ ok (xs, rest)
unfolding raw
raw-append xs rest =
    let long : ltb (length (xs ++ rest)) (length xs) ≡ false =
      ground (arith, length-append xs rest) in
    rw (long, take-append_self, drop-append_self)

pub field-append : (xs rest : List ℕ) → field (length xs) (xs ++ rest) ≡ ok (from_bytes xs, rest)
unfolding field
field-append xs rest =
    let long : ltb (length (xs ++ rest)) (length xs) ≡ false =
      ground (arith, length-append xs rest) in
    rw (long, take-append_self, drop-append_self)

pub field-to_bytes :
    (n v : ℕ) (rest : List ℕ) → v < 256 ^ n → field n (to_bytes n v ++ rest) ≡ ok (v, rest)
field-to_bytes n v rest h =
    ap (λ t. field t (to_bytes n v ++ rest)) (sym (length-to_bytes n v))
    ∙ field-append (to_bytes n v) rest
    ∙ ap (λ t. ok (t, rest)) (from_bytes-to_bytes n v h)

pub field_byte : (b : ℕ) (s : Stream) → field 1 (b ∷ s) ≡ ok (b, s)
unfolding field from_bytes
field_byte b s = ground arith
