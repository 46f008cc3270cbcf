-- ===== src/Prelude/Bits.antt =====
-- `&` and `^` of Python on natural numbers, digit by digit, and as arithmetic where one side is a
-- mask of ones or a single bit.
use Prim.Native.Nat.{
  ℕ, zero, suc, ◌+◌, ◌-◌, ◌*◌, ◌/◌, ◌%◌, ◌^◌, ◌≤◌, ◌<◌, min, bit_and, bit_xor, bit_or, max, digits,
  differ, bitwise, bit_and-bitwise, bit_xor-bitwise, bit_or-bitwise,
}
use mathlib.Core.Path.{◌≡◌, refl, ap, ap₂, ◌∙◌}
use mathlib.Core.Bool.{Bool, true, ◌&&◌}
use native.Mathlib.Omega.{arith}
use native.Mathlib.Nat.{
  pow-suc, one-le-pow, mod-lt, mod-one, mod-eq_of_lt, div-add-mod', mul-add-mod_self_right,
}

module _ (z : ℕ → ℕ) (f : ℕ → ℕ → ℕ) where
  -- Any count of digits from the first number on gives the same result.
  digits_any : (n m a b : ℕ) → a ≤ n → a ≤ m → digits z f n a b ≡ digits z f m a b
  digits_any zero zero a b p q = refl
  digits_any zero (suc m) zero b p q = refl
  digits_any zero (suc m) (suc a) b p q = absurd (omega arith)
  digits_any (suc n) zero zero b p q = refl
  digits_any (suc n) zero (suc a) b p q = absurd (omega arith)
  digits_any (suc n) (suc m) zero b p q = refl
  digits_any (suc n) (suc m) (suc a) b p q =
      rw (digits_any n m (suc a / 2) (b / 2) (omega arith) (omega arith))

  bitwise_split :
      (a b : ℕ)
      → bitwise z f (suc a) b ≡ bitwise z f (suc a / 2) (b / 2) * 2 + f (suc a % 2) (b % 2)
  bitwise_split a b =
      omega (arith, digits_any a (suc a / 2) (suc a / 2) (b / 2) (omega arith) (omega arith))

pub bit_and_split : (a b : ℕ) → bit_and a b ≡ bit_and (a / 2) (b / 2) * 2 + min (a % 2) (b % 2)
bit_and_split zero b = simp bit_and-bitwise (omega arith)
bit_and_split (suc a) b = simp bit_and-bitwise (bitwise_split (λ y. 0) min a b)

pub bit_or_split : (a b : ℕ) → bit_or a b ≡ bit_or (a / 2) (b / 2) * 2 + max (a % 2) (b % 2)
bit_or_split zero b = simp bit_or-bitwise (omega arith)
bit_or_split (suc a) b = simp bit_or-bitwise (bitwise_split (λ y. y) max a b)

differ_bits : (x y : ℕ) → x < 2 → y < 2 → differ x y ≡ (x + y) % 2
differ_bits zero y p q = omega arith
differ_bits (suc zero) zero p q = refl
differ_bits (suc zero) (suc zero) p q = refl
differ_bits (suc zero) (suc (suc y)) p q = absurd (omega arith)
differ_bits (suc (suc x)) y p q = absurd (omega arith)

pub bit_xor_split : (a b : ℕ) → bit_xor a b ≡ bit_xor (a / 2) (b / 2) * 2 + (a + b) % 2
bit_xor_split zero b = simp bit_xor-bitwise (omega arith)
bit_xor_split (suc a) b = omega (
  arith,
  bit_xor-bitwise (suc a) b,
  bit_xor-bitwise (suc a / 2) (b / 2),
  bitwise_split (λ y. y) differ a b,
  differ_bits (suc a % 2) (b % 2) (omega arith) (omega arith),
)

bit_xor-half : (a b : ℕ) → bit_xor a b / 2 ≡ bit_xor (a / 2) (b / 2)
bit_xor-half a b = omega (arith, bit_xor_split a b)

-- Strong induction on the second number, by a bound.
and_le : (n a m : ℕ) → m ≤ n → bit_and a m ≤ m
and_le zero a zero h = omega (arith, and_zero a a (omega arith))
  where
    and_zero : (k x : ℕ) → x ≤ k → bit_and x 0 ≡ 0
    and_zero k zero p = refl
    and_zero zero (suc x) p = absurd (omega arith)
    and_zero (suc k) (suc x) p =
        omega (arith, bit_and_split (suc x) 0, and_zero k (suc x / 2) (omega arith))
and_le zero a (suc m) h = absurd (omega arith)
and_le (suc n) a m h = omega (arith, bit_and_split a m, and_le n (a / 2) (m / 2) (omega arith))

-- `a & m` is at most `m`.
pub bit_and-le_right : (a m : ℕ) → bit_and a m ≤ m
bit_and-le_right a m = and_le m a m (omega arith)

-- The lowest digit of a remainder by a double.
mod-double : (m a : ℕ) → 0 < m → a % (m * 2) ≡ a / 2 % m * 2 + a % 2
mod-double m a h =
    let q = a / 2 / m in
    let r = a / 2 % m * 2 + a % 2 in
    let whole : a ≡ q * (m * 2) + r = omega (arith, div-add-mod' (a / 2) m) in
    let low : r < m * 2 = omega (arith, mod-lt (a / 2) h) in
    ap (λ t. t % (m * 2)) whole ∙ mul-add-mod_self_right q (m * 2) r ∙ mod-eq_of_lt low

mod-pow_suc : (k a : ℕ) → a % 2 ^ suc k ≡ a / 2 % 2 ^ k * 2 + a % 2
mod-pow_suc k a = rw pow-suc (mod-double (2 ^ k) a (one-le-pow k 2 (omega arith)))

-- `a & (2 ** k - 1)` is `a % 2 ** k`.
pub bit_and-ones : (k a : ℕ) → bit_and a (2 ^ k - 1) ≡ a % 2 ^ k
bit_and-ones zero a = omega (arith, bit_and-le_right a 0)
bit_and-ones (suc k) a =
    let positive = one-le-pow k 2 (omega arith) in
    let double = pow-suc 2 k in
    let halves : (2 ^ suc k - 1) / 2 ≡ 2 ^ k - 1 = omega arith in
    omega (
      arith,
      bit_and_split a (2 ^ suc k - 1),
      ap (λ t. bit_and (a / 2) t) halves,
      bit_and-ones k (a / 2),
      mod-pow_suc k a,
    )

-- `a ^ 2 ** k` flips bit k.
pub bit_xor-bit : (k a : ℕ) → bit_xor a (2 ^ k) % 2 ^ suc k ≡ (a + 2 ^ k) % 2 ^ suc k
bit_xor-bit zero a = omega (arith, bit_xor_split a 1)
bit_xor-bit (suc k) a =
    let double = pow-suc 2 k in
    let half : 2 ^ suc k / 2 ≡ 2 ^ k = omega arith in
    let half_sum : (a + 2 ^ suc k) / 2 ≡ a / 2 + 2 ^ k = omega arith in
    let half_xor : bit_xor a (2 ^ suc k) / 2 ≡ bit_xor (a / 2) (2 ^ k) =
      omega (arith, bit_xor_split a (2 ^ suc k), ap (λ t. bit_xor (a / 2) t) half) in
    omega (
      arith,
      bit_xor_split a (2 ^ suc k),
      mod-pow_suc (suc k) (bit_xor a (2 ^ suc k)),
      mod-pow_suc (suc k) (a + 2 ^ suc k),
      ap (λ t. t % 2 ^ suc k) half_xor,
      ap (λ t. t % 2 ^ suc k) half_sum,
      bit_xor-bit k (a / 2),
    )

-- The low digits of `a ^ b` come from the low digits.
pub bit_xor-mod : (k a b : ℕ) → bit_xor a b % 2 ^ k ≡ bit_xor (a % 2 ^ k) (b % 2 ^ k)
bit_xor-mod zero a b =
    omega (arith, bit_xor_split (a % 1) (b % 1), ap₂ bit_xor (mod-one a) (mod-one b))
bit_xor-mod (suc k) a b =
    let half : (x : ℕ) → x % 2 ^ suc k / 2 ≡ x / 2 % 2 ^ k = λ x. omega (arith, mod-pow_suc k x) in
    omega (
      arith,
      bit_xor_split a b,
      mod-pow_suc k (bit_xor a b),
      ap (λ t. t % 2 ^ k) (bit_xor-half a b),
      bit_xor-mod k (a / 2) (b / 2),
      bit_xor_split (a % 2 ^ suc k) (b % 2 ^ suc k),
      ap₂ bit_xor (half a) (half b),
      mod-pow_suc k a,
      mod-pow_suc k b,
    )

pub bit_xor-lt : (k a b : ℕ) → a < 2 ^ k → b < 2 ^ k → bit_xor a b < 2 ^ k
bit_xor-lt zero a b p q = omega (arith, bit_xor_split a b, ap₂ bit_xor (zero_of a p) (zero_of b q))
  where
    zero_of : (x : ℕ) → x < 1 → x ≡ 0
    zero_of x h = omega arith
bit_xor-lt (suc k) a b p q = omega (
  arith,
  pow-suc 2 k,
  bit_xor_split a b,
  bit_xor-lt k (a / 2) (b / 2) (omega (arith, pow-suc 2 k)) (omega (arith, pow-suc 2 k)),
)

-- Flipping digits commutes with complementing a word of k digits.
pub bit_xor-complement :
    (k a b : ℕ) → a < 2 ^ k → b < 2 ^ k → bit_xor (2 ^ k - 1 - a) b ≡ 2 ^ k - 1 - bit_xor a b
bit_xor-complement zero a b p q =
    omega (arith, bit_xor-lt 0 a b p q, bit_xor-lt 0 (0 - a) b (omega arith) q)
bit_xor-complement (suc k) a b p q =
    let double = pow-suc 2 k in
    let halves : (2 ^ suc k - 1 - a) / 2 ≡ 2 ^ k - 1 - a / 2 = omega arith in
    omega (
      arith,
      bit_xor_split (2 ^ suc k - 1 - a) b,
      ap (λ t. bit_xor t (b / 2)) halves,
      bit_xor_split a b,
      bit_xor-complement k (a / 2) (b / 2) (omega arith) (omega arith),
      bit_xor-lt k (a / 2) (b / 2) (omega arith) (omega arith),
    )

-- Over a small range a test is checked by evaluation.
unfoldable pub holds_below : ℕ → (ℕ → Bool) → Bool
holds_below zero test = true
holds_below (suc n) test = test n && holds_below n test

pub holds_below_lem :
    (n : ℕ) (test : ℕ → Bool) (x : ℕ) → holds_below n test ≡ true → x < n → test x ≡ true
unfolding holds_below
holds_below_lem zero test x h lt = absurd (omega arith)
holds_below_lem (suc n) test x h lt = ground (arith, holds_below_lem n test x)
