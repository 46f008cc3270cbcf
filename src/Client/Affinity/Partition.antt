-- ===== src/Client/Affinity/Partition.antt =====
-- The partition of a hash code, and the node that owns it.
use python_thin_client.Prelude.{
  ℕ, zero, suc, ◌-◌, ◌*◌, ◌/◌, ◌%◌, ◌^◌, ◌≤◌, ◌<◌, ◌≡◌, ◌≢◌, refl, ap, sym, ◌∙◌, arith, bit_and,
  bit_xor,
}
use python_thin_client.Prelude.Int.{ℤ, pos, negsuc}
use python_thin_client.Prelude.Bits.{bit_and-ones}
use python_thin_client.Prelude.Numbers.{
  and_mask, and_mask-le, and_mask-ones, unsigned-mod, unsigned-xor_mask, unsigned-lt,
  unsigned-signed_32, xor_mask, unsigned, floor_div, abs, signed,
}
use python_thin_client.Prelude.Outcome.{ok, raised}
use native.Mathlib.Nat.{mod_self, mod-lt, one-le-pow, le-div_iff_mul-le}
use python_thin_client.Client.Affinity.{partition, assertion_error}

-- For a power of two the assertion holds whatever the hash code.
pub partition-pow2 :
    (h : ℤ) (parts : ℕ)
    → 0 < parts
    → bit_and parts (parts - 1) ≡ 0
    → (p : ℕ) × (partition h parts ≡ ok p) × (p < parts)
unfolding partition
partition-pow2 h parts positive pow2 =
    let m = xor_mask h (unsigned 32 h / 2 ^ 16) in
    (
      and_mask m (parts - 1),
      ground (arith, and_mask-le m (parts - 1)),
      omega (arith, and_mask-le m (parts - 1)),
    )

-- The algorithm of `RendezvousAffinityFunction.java` for 2 ** k partitions, on a word of 32 bits.
abbrev pub rendezvous : ℕ → ℕ → ℕ
rendezvous k word = bit_xor word (word / 2 ^ 16) % 2 ^ k

-- For 2 ** k partitions, k at most 32, the client computes the algorithm of the server on the low 32
-- bits of the hash code, so a hash code that was not cut to 32 bits gives the same partition.
pub partition-rendezvous :
    (k : ℕ) (h : ℤ)
    → k ≤ 32
    → (partition h (2 ^ k) ≡ ok (rendezvous k (unsigned 32 h)))
      × (partition (signed 32 h) (2 ^ k) ≡ partition h (2 ^ k))
partition-rendezvous k h small = (
  agrees h,
  agrees (signed 32 h) ∙ ap (λ t. ok (rendezvous k t)) (unsigned-signed_32 h) ∙ sym (agrees h),
)
  where
    masked :
        (v : ℤ)
        → and_mask (xor_mask v (unsigned 32 v / 2 ^ 16)) (2 ^ k - 1) ≡ rendezvous k (unsigned 32 v)
    masked v =
        let high = unsigned 32 v / 2 ^ 16 in
        and_mask-ones k (xor_mask v high)
        ∙ sym (unsigned-mod k 32 (xor_mask v high) small)
        ∙ ap (λ t. t % 2 ^ k) (unsigned-xor_mask 32 v high (omega (arith, unsigned-lt 32 v)))

    agrees : (v : ℤ) → partition v (2 ^ k) ≡ ok (rendezvous k (unsigned 32 v))
    agrees v =
        unfold partition in
        ground (
          arith,
          bit_and-ones k (2 ^ k),
          mod_self (2 ^ k),
          masked v,
          mod-lt (bit_xor (unsigned 32 v) (unsigned 32 v / 2 ^ 16)) (one-le-pow k 2 (omega arith)),
        )

-- For a number of partitions that is no power of two, a hash code from the square of that number on,
-- or below its negation, fails the assertion.
pub partition_fails :
    (h parts : ℕ)
    → bit_and parts (parts - 1) ≢ 0
    → parts * parts ≤ h
    → (partition (pos h) parts ≡ raised assertion_error)
      × (partition (negsuc h) parts ≡ raised assertion_error)
unfolding partition floor_div abs
partition_fails h zero other large = absurd (other refl)
partition_fails h (suc n) other large =
    let quotient : suc n ≤ h / suc n = (le-div_iff_mul-le (omega arith)).1 large in
    (ground arith, ground arith)
