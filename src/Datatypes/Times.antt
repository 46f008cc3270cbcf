-- ===== src/Datatypes/Times.antt =====
-- Points and spans of time as pygridgain/datatypes/standard.py converts them, by the arithmetic of
-- Python's floats. A point is its number of microseconds since the epoch, in a zone without offset, more
-- than a day after the first moment that a `datetime` has; a span is its number of microseconds.
use python_thin_client.Prelude.{
  ℕ, zero, suc, ◌+◌, ◌-◌, ◌*◌, ◌/◌, ◌%◌, ◌^◌, ◌≤◌, ◌<◌, ◌≡◌, refl, ap, ◌∙◌, ltb, leb, if◌then◌else◌,
  arith, Bool-cases, inl, inr, true, lt→ltb,
}
use python_thin_client.Prelude.Int.{ℤ, pos, negsuc}
use python_thin_client.Prelude.Outcome.{ok, raised}
use python_thin_client.Datatypes.Wire.{Result, overflow_error, value_error}
use python_thin_client.Datatypes.Wire.{Fits}
use python_thin_client.Datatypes.Context.{half_even}
use native.Mathlib.Nat.{
  mul-div_cancel, mul-mod_left, one-le-pow, mul_right_comm, mul-lt-mul_of_pos_right,
}

-- The doublings until a / b has 53 binary digits before the point, and the halvings until it has no more.
unfoldable pub lift : ℕ → ℕ → ℕ → ℕ → ℕ
lift zero k a b = k
lift (suc fuel) k a b =
    let rest = lift fuel (suc k) a b in if leb (2 ^ 52 * b) (a * 2 ^ k) then k else rest

unfoldable pub lower : ℕ → ℕ → ℕ → ℕ → ℕ
lower zero j a b = j
lower (suc fuel) j a b =
    let rest = lower fuel (suc j) a b in if ltb a (2 ^ 53 * b * 2 ^ j) then j else rest

-- The double nearest to a / b, as a fraction. Seconds, milliseconds and their fractions take fewer than
-- 128 doublings and 64 halvings.
unfoldable pub round_double : ℕ → ℕ → ℕ × ℕ
unfolding lift lower half_even
round_double zero b = (0, 1)
round_double (suc a) b =
    if leb (2 ^ 52 * b) (suc a)
    then (let j = lower 64 0 (suc a) b in (half_even (suc a) (b * 2 ^ j) * 2 ^ j, 1))
    else (let k = lift 128 0 (suc a) b in (half_even (suc a * 2 ^ k) b, 2 ^ k))

-- int(x * 1000)
unfoldable pub thousandfold : ℕ × ℕ → ℕ
unfolding round_double
thousandfold (n, d) = let (m, e) = round_double (n * 1000) d in m / e

unfoldable pub negated : ℕ → ℤ
negated zero = pos 0
negated (suc n) = negsuc n

-- int(value.total_seconds() * 1000)
unfoldable pub span_millis : ℤ → ℤ
unfolding thousandfold round_double negated
span_millis (pos u) = pos (thousandfold (round_double u 1000000))
span_millis (negsuc u) = negated (thousandfold (round_double (suc u) 1000000))

-- `timestamp()`, of seconds before or since the epoch, and microseconds before or after these
unfoldable pub stamp_before : ℕ → ℕ → ℕ × ℕ
unfolding round_double
stamp_before seconds micros =
    let (n, d) = round_double micros 1000000 in round_double (seconds * d - n) d

unfoldable pub stamp_since : ℕ → ℕ → ℕ × ℕ
unfolding round_double
stamp_since seconds micros =
    let (n, d) = round_double micros 1000000 in round_double (seconds * d + n) d

-- int(value.timestamp() * 1000)
unfoldable pub point_millis : ℤ → ℤ
unfolding thousandfold stamp_before stamp_since negated
point_millis (pos u) = pos (thousandfold (stamp_since (u / 1000000) (u % 1000000)))
point_millis (negsuc u) =
    let seconds = u / 1000000 + 1 in
    negated (thousandfold (stamp_before seconds (seconds * 1000000 - suc u)))

-- timedelta(milliseconds=...), which has fewer than 10 ** 9 days
unfoldable pub span_of : ℤ → Result ℤ
span_of (pos m) = if ltb m (86400000 * 10 ^ 9) then ok (pos (m * 1000)) else raised overflow_error
span_of (negsuc m) =
    if ltb m (86400000 * 999999999) then ok (negsuc (m * 1000 + 999)) else raised overflow_error

-- datetime.fromtimestamp(x), of a double: the microseconds, rounded half to even
unfoldable pub micros_of : ℕ × ℕ → ℕ
unfolding round_double half_even
micros_of (n, d) = let (m, e) = round_double (n % d * 1000000) d in n / d * 1000000 + half_even m e

-- datetime.fromtimestamp(milliseconds / 1000), of the years 1 to 9999
unfoldable pub point_of : ℤ → Result ℤ
unfolding round_double micros_of negated
point_of (pos m) =
    let u = micros_of (round_double m 1000) in
    if ltb u (253402300800 * 1000000) then ok (pos u) else raised value_error
point_of (negsuc m) =
    let u = micros_of (round_double (m + 1) 1000) in
    if leb u (62135510400 * 1000000) then ok (negated u) else raised value_error

half_even-exact : (q b : ℕ) → 0 < b → half_even (q * b) b ≡ q
unfolding half_even
half_even-exact q b h = rw (mul-div_cancel q h, mul-mod_left q b, lt→ltb 0 b h) refl

-- A fraction that is the number q.
abbrev pub Equals : ℕ × ℕ → ℕ → Type 0
Equals f q = (0 < f.1) × (f.0 ≡ q * f.1)

swap : (q b m : ℕ) → q * b * m ≡ q * m * b
swap q b m = mul_right_comm q b m

half_even-times : (q a b m : ℕ) → 0 < b → a ≡ q * b → half_even (a * m) b ≡ q * m
half_even-times q a b m h e =
    ap (λ t. half_even (t * m) b) e
    ∙ ap (λ t. half_even t b) (swap q b m)
    ∙ half_even-exact (q * m) b h

below_all : (q b : ℕ) → 0 < b → q < 2 ^ 53 → q * b < 2 ^ 53 * b
below_all q b h small = mul-lt-mul_of_pos_right small h

lower-none : (fuel a b : ℕ) → a < 2 ^ 53 * b → lower (suc fuel) 0 a b ≡ 0
unfolding lower
lower-none fuel a b h = rw (lt→ltb a (2 ^ 53 * b * 2 ^ 0) (omega arith)) refl

half_even-unshifted : (q a b : ℕ) → 0 < b → a ≡ q * b → half_even a (b * 2 ^ 0) * 2 ^ 0 ≡ q * 1
half_even-unshifted q a b h e =
    ap (λ t. half_even a t * 1) (omega arith)
    ∙ ap (λ t. half_even t b * 1) e
    ∙ ap (λ t. t * 1) (half_even-exact q b h)

-- A number of fewer than 54 binary digits is a double.
round_double-exact : (q a b : ℕ) → 0 < b → a ≡ q * b → q < 2 ^ 53 → Equals (round_double a b) q
unfolding round_double
round_double-exact zero zero b h e small = (omega arith, refl)
round_double-exact (suc q) zero b h e small = absurd (grind arith)
round_double-exact q (suc a) b h e small = elim (Bool-cases (leb (2 ^ 52 * b) (suc a))) [
  | inl big ↦
      rw (big, lower-none 63 (suc a) b (rw e (below_all q b h small)))
        (omega arith, half_even-unshifted q (suc a) b h e)
  | inr less ↦ rw less (
    one-le-pow (lift 128 0 (suc a) b) 2 (omega arith),
    half_even-times q (suc a) b (2 ^ lift 128 0 (suc a) b) h e,
  )
]

thousandfold-exact : (f : ℕ × ℕ) (q : ℕ) → Equals f q → q < 2 ^ 43 → thousandfold f ≡ q * 1000
unfolding thousandfold
thousandfold-exact f q (h, e) small =
    let (h', e') =
      round_double-exact (q * 1000) (f.0 * 1000) f.1 h (rw e (swap q f.1 1000)) (omega arith) in
    rw e' (mul-div_cancel (q * 1000) h')

thousandfold-seconds :
    (q u b : ℕ) → 0 < b → u ≡ q * b → q < 2 ^ 43 → thousandfold (round_double u b) ≡ q * 1000
thousandfold-seconds q u b h e small =
    thousandfold-exact (round_double u b) q (round_double-exact q u b h e (omega arith)) small

-- Whole seconds, of a span and of a point in time.
abbrev Whole : ℕ → Type 0
Whole u = u % 1000000 ≡ 0

abbrev pub IsSpan : ℤ → Type 0
IsSpan (pos u) = Whole u × (u < 2 ^ 43 * 1000000)
IsSpan (negsuc u) = Whole (suc u) × (suc u < 2 ^ 43 * 1000000)

abbrev pub IsPoint : ℤ → Type 0
IsPoint (pos u) = Whole u × (u < 253402300800 * 1000000)
IsPoint (negsuc u) = Whole (suc u) × (suc u ≤ 62135510400 * 1000000)

-- The milliseconds that are written of a value, which fit their field, and from which the value is
-- read.
abbrev pub Survives : (ℤ → ℤ) → (ℤ → Result ℤ) → ℤ → Type 0
Survives millis of u = Fits 64 (millis u) × (of (millis u) ≡ ok u)

negated-pos : (n : ℕ) → 0 < n → negated n ≡ negsuc (n - 1)
unfolding negated
negated-pos zero h = absurd (omega arith)
negated-pos (suc n) h = ap negsuc (omega arith)

pub span-Survives : (u : ℤ) → IsSpan u → Survives span_millis span_of u
unfolding span_millis span_of
span-Survives (pos u) (whole, small) =
    let q = u / 1000000 in
    rw
      (thousandfold-seconds q u 1000000 (omega arith) (omega (arith, whole)) (omega (arith, small)))
      (
        omega (arith, small),
        rw (lt→ltb (q * 1000) (86400000 * 10 ^ 9) (omega (arith, small)))
            (ap (λ t. ok (pos t)) (omega (arith, whole))),
      )
span-Survives (negsuc u) (whole, small) =
    let q = suc u / 1000000 in
    rw
      (
        thousandfold-seconds q (suc u) 1000000 (omega arith) (omega (arith, whole))
            (omega (arith, small)),
        negated-pos (q * 1000) (omega (arith, whole)),
      )
      (
        omega (arith, small),
        rw (lt→ltb (q * 1000 - 1) (86400000 * 999999999) (omega (arith, small)))
            (ap (λ t. ok (negsuc t)) (omega (arith, whole))),
      )

micros_of-seconds : (f : ℕ × ℕ) (q : ℕ) → Equals f q → micros_of f ≡ q * 1000000
unfolding micros_of round_double half_even
micros_of-seconds f q (h, e) = rw (e, mul-mod_left q f.1, mul-div_cancel q h) (omega arith)

stamp_since-whole : (q : ℕ) → stamp_since q 0 ≡ round_double q 1
unfolding stamp_since round_double
stamp_since-whole q = ap (λ t. round_double t 1) (plus q)
  where
    plus : (n : ℕ) → n * 1 + 0 ≡ n
    plus n = omega arith

stamp_before-whole : (q : ℕ) → stamp_before q 0 ≡ round_double q 1
unfolding stamp_before round_double
stamp_before-whole q = ap (λ t. round_double t 1) (less q)
  where
    less : (n : ℕ) → n * 1 - 0 ≡ n
    less n = omega arith

-- Milliseconds of whole seconds are read as these seconds.
micros_of-millis : (q : ℕ) → q < 2 ^ 43 → micros_of (round_double (q * 1000) 1000) ≡ q * 1000000
micros_of-millis q small =
    micros_of-seconds _ q (round_double-exact q (q * 1000) 1000 (omega arith) refl (omega arith))

pub point-Survives : (u : ℤ) → IsPoint u → Survives point_millis point_of u
unfolding point_millis point_of
point-Survives (pos u) (whole, small) =
    let q = u / 1000000 in
    rw
      (
        whole,
        stamp_since-whole q,
        thousandfold-seconds q q 1 (omega arith) (omega arith) (omega (arith, small)),
        micros_of-millis q (omega (arith, small)),
      )
      (
        omega (arith, small),
        rw (lt→ltb (q * 1000000) (253402300800 * 1000000) (omega (arith, small)))
            (ap (λ t. ok (pos t)) (omega (arith, whole))),
      )
point-Survives (negsuc u) (whole, small) =
    let q = u / 1000000 + 1 in
    let same : q * 1000000 - suc u ≡ 0 = omega (arith, whole) in
    rw
      (
        same,
        stamp_before-whole q,
        thousandfold-seconds q q 1 (omega arith) (omega arith) (omega (arith, small, whole)),
        negated-pos (q * 1000) (omega (arith, whole)),
        one_more (q * 1000) (omega arith),
        micros_of-millis q (omega (arith, small, whole)),
        leb_true (q * 1000000) (62135510400 * 1000000) (omega (arith, small, whole)),
        negated-pos (q * 1000000) (omega arith),
      )
      (omega (arith, small), ap (λ t. ok (negsuc t)) (omega (arith, whole)))
  where
    one_more : (n : ℕ) → 0 < n → n - 1 + 1 ≡ n
    one_more n h = omega arith

    leb_true : (a b : ℕ) → a ≤ b → leb a b ≡ true
    leb_true a b h = ground arith
