-- ===== src/Datatypes/Context.antt =====
-- The default context of Python's `decimal`, as pygridgain/datatypes/standard.py uses it: 28 digits,
-- rounding half to even, exponents up to 999999. A finite decimal without its sign is its digits as a
-- number, and the number of its decimal places, which is its exponent with the other sign.
use python_thin_client.Prelude.{
  ℕ, zero, suc, ◌+◌, ◌-◌, ◌*◌, ◌/◌, ◌%◌, ◌^◌, ◌≤◌, ◌<◌, ◌≡◌, refl, ap, ◌∙◌, Bool, true, false, ◌==◌,
  ltb, if◌then◌else◌, arith, Bool-cases, inl, inr,
}
use Prim.Native.Nat.{max, min}
use python_thin_client.Prelude.Int.{ℤ, pos, negsuc, ◌-ℤ◌}
use python_thin_client.Prelude.Outcome.{ok, raised, ◌>>=◌}
use python_thin_client.Datatypes.Wire.{Result, decimal_error}
use native.Mathlib.Nat.{pow-suc, div-one, mod-one}

abbrev pub precision : ℕ
precision = 28

-- a / b, rounded half to even
unfoldable pub half_even : ℕ → ℕ → ℕ
half_even a b =
    let q = a / b in
    let r = a % b in
    if ltb (2 * r) b then q else if ltb b (2 * r) then q + 1 else if q % 2 == 0 then q else q + 1

-- The number of decimal digits; as many rounds as the number is large are enough.
unfoldable pub digits : ℕ → ℕ → ℕ
digits zero v = 0
digits (suc fuel) v = let rest = digits fuel (v / 10) in if v == 0 then 0 else rest + 1

-- Zeros at the end go, n of them at most.
unfoldable pub strip : ℕ → ℕ → ℤ → ℕ × ℤ
strip zero c s = (c, s)
strip (suc n) c s = let rest = strip n (c / 10) (s -ℤ pos 1) in if c % 10 == 0 then rest else (c, s)

-- the places below the least exponent
unfoldable pub excess : ℤ → ℕ
excess (pos s) = s - 1000026
excess (negsuc s) = 0

-- A number of n digits with s places is 10 ^ 1000000 or more.
unfoldable pub too_large : ℕ → ℤ → Bool
too_large n (pos s) = ltb (1000000 + s) n
too_large n (negsuc s) = ltb 1000000 (n + (s + 1))

unfoldable pub clamp : ℤ → ℤ
clamp (pos s) = pos (min s 1000026)
clamp (negsuc s) = if ltb s 999999 then negsuc s else negsuc 999998

-- A rounding to 28 digits can give 10 ^ 28.
unfoldable pub carry : ℕ → ℤ → ℕ × ℤ
carry q s = if q == 10 ^ precision then (q / 10, s -ℤ pos 1) else (q, s)

-- A number that loses its last d digits.
unfoldable pub fix_at : ℕ → ℕ → ℤ → Result (ℕ × ℤ)
unfolding half_even digits too_large carry
fix_at d c s =
    let (q, s1) = carry (half_even c (10 ^ d)) (s -ℤ pos d) in
    if too_large (digits q q) s1 then raised decimal_error else ok (q, s1)

-- `_fix` of the result of an operation
unfoldable pub fix : ℕ → ℤ → Result (ℕ × ℤ)
unfolding digits excess clamp fix_at
fix zero s = ok (0, clamp s)
fix (suc n) s = fix_at (max (digits (suc n) (suc n) - precision) (excess s)) (suc n) s

unfoldable pub stripped : ℕ → ℤ → ℕ × ℤ
unfolding strip digits
stripped zero s = (0, pos 0)
stripped (suc n) s = strip (digits (suc n) (suc n)) (suc n) s

-- `Decimal.normalize`
unfoldable pub normalize : ℕ → ℤ → Result (ℕ × ℤ)
unfolding fix stripped
normalize c s = do (q, s1) ← fix c s; ok (stripped q s1)

-- 10 ** s overflows, or is rounded to 0 and divides by zero.
unfoldable pub no_power : ℤ → Bool
no_power (pos s) = ltb 999999 s
no_power (negsuc s) = ltb 1000025 s

-- The zeros that a quotient by 10 ** s may lose until it has the places of the ideal exponent: that of
-- the integer 0 less that of the power, which has 28 digits from 10 ** 28 on.
unfoldable pub spare : ℤ → ℕ
spare (pos s) = min s 27
spare (negsuc s) = 0

-- an integer divided by Decimal('10') ** Decimal(s)
unfoldable pub scaled : ℕ → ℤ → Result (ℕ × ℤ)
unfolding fix strip spare no_power
scaled c s =
    if no_power s then raised decimal_error else (let (q, s1) = strip (spare s) c s in fix q s1)

-- A decimal that `normalize` leaves as it is, and that can be read: zero without places, or at most 28
-- digits of which the last is not 0, with an exponent that leaves room for them.
abbrev pub InRange : ℤ → Type 0
InRange (pos s) = s ≤ 999999
InRange (negsuc s) = s < 999971

abbrev pub IsNormal : ℕ → ℤ → Type 0
IsNormal zero s = s ≡ pos 0
IsNormal (suc n) s = (suc n < 10 ^ precision) × ((suc n % 10 == 0) ≡ false) × InRange s

digits-bound : (n fuel v : ℕ) → v < 10 ^ n → digits fuel v ≤ n
unfolding digits
digits-bound n zero v h = omega arith
digits-bound zero (suc fuel) v h = elim (Bool-cases (v == 0)) [
  | inl none_left ↦ rw none_left (omega arith)
  | inr more ↦ absurd (ground arith)
]
digits-bound (suc n) (suc fuel) v h = elim (Bool-cases (v == 0)) [
  | inl none_left ↦ rw none_left (omega arith)
  | inr more ↦ rw more (omega (arith, digits-bound n fuel (v / 10) (omega (arith, pow-suc 10 n))))
]

strip-last : (n c : ℕ) (s : ℤ) → (c % 10 == 0) ≡ false → strip n c s ≡ (c, s)
unfolding strip
strip-last zero c s h = refl
strip-last (suc n) c s h = rw h refl

minus_zero : (s : ℤ) → s -ℤ pos 0 ≡ s
unfolding ◌-ℤ◌
minus_zero s = ground arith

not_excess : (s : ℤ) → InRange s → excess s ≡ 0
unfolding excess
not_excess (pos s) h = omega arith
not_excess (negsuc s) h = refl

not_large : (n : ℕ) (s : ℤ) → n ≤ precision → InRange s → too_large n s ≡ false
unfolding too_large
not_large n (pos s) h k = ground arith
not_large n (negsuc s) h k = ground arith

half_even-one : (c : ℕ) → half_even c 1 ≡ c
unfolding half_even
half_even-one c = rw (div-one c, mod-one c) refl

carry-small : (c : ℕ) (s : ℤ) → c < 10 ^ precision → carry c s ≡ (c, s)
unfolding carry
carry-small c s h = rw (not_equal (c == 10 ^ precision) refl) refl
  where
    not_equal : (b : Bool) → (c == 10 ^ precision) ≡ b → (c == 10 ^ precision) ≡ false
    not_equal true e = absurd (ground arith)
    not_equal false e = e

fix_at-none : (c : ℕ) (s : ℤ) → c < 10 ^ precision → InRange s → fix_at 0 c s ≡ ok (c, s)
unfolding fix_at
fix_at-none c s small near =
    rw
      (
        half_even-one c,
        minus_zero s,
        carry-small c s small,
        not_large (digits c c) s (digits-bound precision c c small) near,
      )
      refl

fix-IsNormal : (n : ℕ) (s : ℤ) → suc n < 10 ^ precision → InRange s → fix (suc n) s ≡ ok (suc n, s)
unfolding fix
fix-IsNormal n s small near =
    ap (λ d. fix_at d (suc n) s) none_lost ∙ fix_at-none (suc n) s small near
  where
    none_lost : max (digits (suc n) (suc n) - precision) (excess s) ≡ 0
    none_lost = rw (not_excess s near) (omega (arith, digits-bound precision (suc n) (suc n) small))

pub normalize-IsNormal : (c : ℕ) (s : ℤ) → IsNormal c s → normalize c s ≡ ok (c, s)
unfolding normalize stripped
normalize-IsNormal zero s h = unfold fix in rw h refl
normalize-IsNormal (suc n) s (small, last, near) =
    rw (fix-IsNormal n s small near) (ap ok (strip-last (digits (suc n) (suc n)) (suc n) s last))

pub scaled-IsNormal : (c : ℕ) (s : ℤ) → IsNormal c s → scaled c s ≡ ok (c, s)
unfolding scaled
scaled-IsNormal zero s h = unfold fix clamp strip spare no_power in rw h refl
scaled-IsNormal (suc n) s (small, last, near) =
    rw (powered s near, strip-last (spare s) (suc n) s last) (fix-IsNormal n s small near)
  where
    powered : (t : ℤ) → InRange t → no_power t ≡ false
    powered (pos t) h = unfold no_power in ground arith
    powered (negsuc t) h = unfold no_power in ground arith
