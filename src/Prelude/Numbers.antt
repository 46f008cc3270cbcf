-- ===== src/Prelude/Numbers.antt =====
-- Python's unbounded integers under the operators that the program uses, and the C types of
-- `ctypes`: a value written to a field of w bits keeps its low w bits, and is read back as an
-- unsigned or as a two's complement number. `negsuc a` is -(a + 1), which is `~a`.
use Prim.Native.Nat.{ℕ, suc, ◌-◌, ◌*◌, ◌/◌, ◌%◌, ◌^◌, ◌≤◌, ◌<◌, ◌+◌, zero, bit_and, bit_xor}
use mathlib.Core.Path.{◌≡◌, ap, sym, ◌∙◌}
use native.Mathlib.Nat.{
  mod-lt, mod-eq_of_lt, one-le-pow, mul-add-mod_self_right, mod-mod_of_dvd, div-add-mod', pow-suc,
  mul_comm,
}
use mathlib.Core.Bool.{Bool, false}
use native.Mathlib.Omega.{arith}
use native.Mathlib.Decide.{dec_lt}
use Prim.Native.Nat.add
use python_thin_client.Prelude.Tests.{ltb, if◌then◌else◌, ◌==◌}
use python_thin_client.Prelude.Int.{ℤ, pos, negsuc, ◌+ℤ◌, ◌*ℤ◌, ◌≤ℤ◌}
use python_thin_client.Prelude.Bits.{
  bit_and-le_right, bit_and-ones, bit_xor-mod, bit_xor-complement,
}

-- `v & m` for a natural m: `~a & m` has the bits of m that a has not.
unfoldable pub and_mask : ℤ → ℕ → ℕ
and_mask (pos a) m = bit_and a m
and_mask (negsuc a) m = m - bit_and a m

-- `v ^ m` for a natural m: `~a ^ m` is `~(a ^ m)`.
unfoldable pub xor_mask : ℤ → ℕ → ℤ
xor_mask (pos a) m = pos (bit_xor a m)
xor_mask (negsuc a) m = negsuc (bit_xor a m)

-- `v >> k`
unfoldable pub shift_right : ℤ → ℕ → ℤ
shift_right (pos a) k = pos (a / 2 ^ k)
shift_right (negsuc a) k = negsuc (a / 2 ^ k)

-- `v // n` for a positive n, rounded down
unfoldable pub floor_div : ℤ → ℕ → ℤ
floor_div (pos a) n = pos (a / n)
floor_div (negsuc a) n = negsuc (a / n)

unfoldable pub abs : ℤ → ℕ
abs (pos a) = a
abs (negsuc a) = suc a

unfoldable pub eq_ℤ : ℤ → ℤ → Bool
eq_ℤ (pos a) (pos b) = a == b
eq_ℤ (negsuc a) (negsuc b) = a == b
eq_ℤ _ _ = false

-- the value of an unsigned C integer of w bits
unfoldable pub unsigned : ℕ → ℤ → ℕ
unsigned w (pos a) = a % 2 ^ w
unsigned w (negsuc a) = 2 ^ w - 1 - a % 2 ^ w

-- the two's complement reading of a word of w bits
unfoldable pub to_signed : ℕ → ℕ → ℤ
to_signed w u = if ltb (2 * u) (2 ^ w) then pos u else negsuc (2 ^ w - 1 - u)

-- the value of a signed C integer of w bits
unfoldable pub signed : ℕ → ℤ → ℤ
unfolding to_signed unsigned
signed w v = to_signed w (unsigned w v)

pub and_mask-le : (v : ℤ) (m : ℕ) → and_mask v m ≤ m
unfolding and_mask
and_mask-le (pos a) m = bit_and-le_right a m
and_mask-le (negsuc a) m = omega arith

-- A mask of k ones gives the unsigned value of k bits.
pub and_mask-ones : (k : ℕ) (v : ℤ) → and_mask v (2 ^ k - 1) ≡ unsigned k v
unfolding and_mask unsigned
and_mask-ones k (pos a) = bit_and-ones k a
and_mask-ones k (negsuc a) = omega (arith, bit_and-ones k a)

pub signed_range_32 :
    (v : ℤ) → (negsuc (2 ^ 31 - 1) ≤ℤ signed 32 v) × (signed 32 v ≤ℤ pos (2 ^ 31 - 1))
unfolding signed
signed_range_32 v = ground arith

pub unsigned-signed_32 : (v : ℤ) → unsigned 32 (signed 32 v) ≡ unsigned 32 v
unfolding signed
unsigned-signed_32 v = ground arith

pub signed-signed_32 : (v : ℤ) → signed 32 (signed 32 v) ≡ signed 32 v
unfolding signed
signed-signed_32 v = ground arith

-- One step of a hash: multiplying by a constant and adding, wrapped before or not.
pub signed_step_32 :
    (v c : ℤ) → signed 32 (pos 31 *ℤ signed 32 v +ℤ c) ≡ signed 32 (pos 31 *ℤ v +ℤ c)
unfolding signed ◌*ℤ◌ ◌+ℤ◌
signed_step_32 v c = ground arith

-- Flipping low bits and cutting to a word go in either order.
pub unsigned-xor_mask :
    (k : ℕ) (v : ℤ) (b : ℕ) → b < 2 ^ k → unsigned k (xor_mask v b) ≡ bit_xor (unsigned k v) b
unfolding unsigned xor_mask
unsigned-xor_mask k (pos a) b h =
    bit_xor-mod k a b ∙ ap (λ t. bit_xor (a % 2 ^ k) t) (mod-eq_of_lt h)
unsigned-xor_mask k (negsuc a) b h =
    ap (λ t. 2 ^ k - 1 - t) (bit_xor-mod k a b ∙ ap (λ t. bit_xor (a % 2 ^ k) t) (mod-eq_of_lt h))
    ∙ sym (bit_xor-complement k (a % 2 ^ k) b (mod-lt a (one-le-pow k 2 (omega arith))) h)

pub unsigned-lt : (k : ℕ) (v : ℤ) → unsigned k v < 2 ^ k
unfolding unsigned
unsigned-lt k (pos a) = mod-lt a (one-le-pow k 2 (omega arith))
unsigned-lt k (negsuc a) = omega (arith, one-le-pow k 2 (omega arith))

pub pow-add : (d k : ℕ) → 2 ^ (d + k) ≡ 2 ^ d * 2 ^ k
pow-add zero k = ap (λ t. 2 ^ t) (add.zero k) ∙ omega arith
pow-add (suc d) k =
    ap (λ t. 2 ^ t) (add.suc d k)
    ∙ omega (arith, pow-suc 2 (d + k), pow-add d k, ap (λ t. t * 2 ^ k) (pow-suc 2 d))

pow-split : (k n : ℕ) → k ≤ n → 2 ^ n ≡ 2 ^ (n - k) * 2 ^ k
pow-split k n h =
    let parts : n ≡ n - k + k = omega arith in ap (λ t. 2 ^ t) parts ∙ pow-add (n - k) k

pub quotient-lt : (d m r : ℕ) → 0 < m → r < d * m → r / m < d
quotient-lt d m r hm h = elim (dec_lt (r / m) d) [
  | yes p ↦ p
  | no p ↦ absurd (grind (arith, div-add-mod' r m))
]

split_up : (d q : ℕ) → q < d → d ≡ d - 1 - q + q + 1
split_up d q h = omega arith

complement-mod : (d m a : ℕ) → 0 < d → 0 < m → (d * m - 1 - a % (d * m)) % m ≡ m - 1 - a % m
complement-mod d m a hd hm =
    let r = a % (d * m) in
    let q = r / m in
    let s = r % m in
    let below : r < d * m = mod-lt a (grind arith) in
    let fits : q < d = quotient-lt d m r hm below in
    let small : s < m = mod-lt r hm in
    let whole : d * m - 1 - r ≡ (d - 1 - q) * m + (m - 1 - s) =
      omega (arith, div-add-mod' r m, ap (λ (t : ℕ). t * m) (split_up d q fits)) in
    let low : m - 1 - s < m = omega arith in
    ap (λ t. t % m) whole
    ∙ mul-add-mod_self_right (d - 1 - q) m (m - 1 - s)
    ∙ mod-eq_of_lt low
    ∙ ap (λ t. m - 1 - t) (mod-mod_of_dvd m a ∣ (d, omega arith) ∣₁)

-- The low bits of a longer word are the shorter word.
pub unsigned-mod : (k n : ℕ) (v : ℤ) → k ≤ n → unsigned n v % 2 ^ k ≡ unsigned k v
unfolding unsigned
unsigned-mod k n (pos a) h =
    rw (pow-split k n h)
      (mod-mod_of_dvd (2 ^ k) a ∣ (2 ^ (n - k), mul_comm (2 ^ (n - k)) (2 ^ k)) ∣₁)
unsigned-mod k n (negsuc a) h = rw (pow-split k n h) (
    complement-mod (2 ^ (n - k)) (2 ^ k) a (one-le-pow _ _ (omega arith))
      (one-le-pow _ _ (omega arith)))
