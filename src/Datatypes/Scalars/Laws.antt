-- ===== src/Datatypes/Scalars/Laws.antt =====
-- Reading the parts of data objects back.
use python_thin_client.Prelude.{
  ℕ, zero, suc, ◌+◌, ◌*◌, ◌^◌, ◌<◌, ◌≡◌, refl, ap, List, [], ◌∷◌, ◌++◌, length, All, arith,
  append_assoc, lt→ltb,
}
use python_thin_client.Prelude.Int.{ℤ, pos, negsuc}
use python_thin_client.Prelude.Numbers.{to_signed, unsigned, unsigned-lt, pow-add}
use native.Mathlib.Nat.{mod-eq_of_lt, pow-suc}
use python_thin_client.Prelude.Outcome.{ok}
use python_thin_client.Datatypes.Wire.{Stream, Result, to_bytes, field-to_bytes}
use python_thin_client.Datatypes.Scalars.{
  pack_signed, fits, put_int, get_int, Fits, write_all, write_array,
}
use python_thin_client.Datatypes.Scalars.Parse.{read_n, read_array}

-- What is read of a field of n bytes is the value that was written, if that fits.
to_signed-unsigned : (w : ℕ) (v : ℤ) → 0 < w → Fits w v → to_signed w (unsigned w v) ≡ v
unfolding to_signed unsigned
to_signed-unsigned zero v p h = absurd (omega arith)
to_signed-unsigned (suc w) (pos a) p h =
    ground (arith, mod-eq_of_lt {n = a} {m = 2 ^ suc w} (omega arith))
to_signed-unsigned (suc w) (negsuc a) p h =
    ground (arith, pow-suc 2 w, mod-eq_of_lt {n = a} {m = 2 ^ suc w} (omega arith))

pub pow_bytes : (n : ℕ) → 256 ^ n ≡ 2 ^ (8 * n)
pow_bytes zero = refl
pow_bytes (suc n) =
    let more : 8 * suc n ≡ 8 * n + 8 = omega arith in
    omega (arith, pow-suc 256 n, pow_bytes n, pow-add (8 * n) 8, ap (λ t. 2 ^ t) more)

pub get_int-put_int :
    (n : ℕ) (v : ℤ) (rest : Stream)
    → 0 < n
    → Fits (8 * n) v
    → get_int n (put_int n v ++ rest) ≡ ok (v, rest)
unfolding get_int put_int
get_int-put_int n v rest p h =
    rw (field-to_bytes n (unsigned (8 * n) v) rest (rw (pow_bytes n) (unsigned-lt (8 * n) v)))
      (ap (λ t. ok (t, rest)) (to_signed-unsigned (8 * n) v (omega arith) h))

-- A number that is read and not used.
pub get_int_any :
    (n : ℕ) (v : ℤ) (rest : Stream)
    → get_int n (put_int n v ++ rest) ≡ ok (to_signed (8 * n) (unsigned (8 * n) v), rest)
unfolding get_int put_int
get_int_any n v rest =
    rw (field-to_bytes n (unsigned (8 * n) v) rest (rw (pow_bytes n) (unsigned-lt (8 * n) v))) refl

pub pack_signed_lem : (n : ℕ) (v : ℤ) → Fits (8 * n) v → pack_signed n v ≡ ok (put_int n v)
unfolding pack_signed fits
pack_signed_lem n (pos a) h = rw (lt→ltb (2 * a) (2 ^ (8 * n)) h) refl
pack_signed_lem n (negsuc a) h = rw (lt→ltb (2 * a) (2 ^ (8 * n)) h) refl

-- Reading with `read` takes back what `write` wrote of `x`.
abbrev pub Reads {ℓ} :
    {A : Type ℓ} → (A → Result (List ℕ)) → (Stream → Result (A × Stream)) → A → Type ℓ
Reads write read x =
    (body : List ℕ) × (write x ≡ ok body) × ((rest : Stream) → read (body ++ rest) ≡ ok (x, rest))

module _ {ℓ} {A : Type ℓ} (write : A → Result (List ℕ)) (read : Stream → Result (A × Stream)) where
  read_n-write_all :
      (xs : List A)
      → All (Reads write read) xs
      → (body : List ℕ) × (write_all write xs ≡ ok body)
        × ((rest : Stream) → read_n read (length xs) (body ++ rest) ≡ ok (xs, rest))
  unfolding write_all read_n
  read_n-write_all [] h = ([], refl, λ rest. refl)
  read_n-write_all (x ∷ xs) h =
      let (b, wrote, back) = h.0 in
      let (bs, wrote_all, back_all) = read_n-write_all xs h.1 in
      (b ++ bs, rw (wrote, wrote_all), λ rest. rw (append_assoc, back, back_all))

  pub read_array-write_array :
      (xs : List A)
      → All (Reads write read) xs
      → length xs < 2 ^ 32
      → Reads (write_array write) (read_array read) xs
  unfolding write_array read_array
  read_array-write_array xs h small =
      let (bs, wrote, back) = read_n-write_all xs h in
      (
        to_bytes 4 (length xs) ++ bs,
        rw (lt→ltb (length xs) (256 ^ 4) small, wrote),
        λ rest. rw (append_assoc, field-to_bytes 4 (length xs) (bs ++ rest) small) (back rest),
      )
