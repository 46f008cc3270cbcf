-- ===== src/Datatypes/Scalars/Arrays.antt =====
-- Arrays, and the objects that are written like their elements.
use python_thin_client.Prelude.{
  ℕ, ◌*◌, ◌^◌, ◌<◌, ◌≡◌, refl, Bool, true, false, not, List, [], ◌∷◌, ◌==◌, length, All, arith,
  lt→ltb, ◌≤◌, ◌⊎◌, inl, inr, leb, ltb, ◌&&◌,
}
use python_thin_client.Prelude.Int.{ℤ, pos, negsuc}
use python_thin_client.Prelude.Numbers.{to_signed}
use python_thin_client.Prelude.Outcome.{ok}
use python_thin_client.Datatypes.Wire.{Stream, to_bytes, from_bytes, field, field-to_bytes}
use python_thin_client.Datatypes.Scalars.{
  number_array, real_array, char_array, bool_array, IntKind, byte, short, int, long, RealKind,
  int_size, real_size, put_int, get_int, Fits, fits, pack_int, pack_nat, pack_char, pack_real,
  pack_bool, write_scalar,
}
use python_thin_client.Datatypes.Scalars.Parse.{read_char, read_bool, read_scalar, char_unit}
use python_thin_client.Datatypes.Scalars.Laws.{get_int-put_int, Reads, read_array-write_array}
use python_thin_client.Datatypes.Scalars.Objects.{RoundTrips, IsReal, IsWide}

pub signed_char : (u : ℕ) → u < 2 ^ 15 → to_signed 16 u ≡ pos u
unfolding to_signed
signed_char u h = ground arith

-- A code unit that is no surrogate is written.
pub pack_char-plain :
    (c : ℕ) → c < 2 ^ 16 → (c < 0xd800) ⊎ (0xe000 ≤ c) → pack_char c ≡ ok (to_bytes 2 c)
unfolding pack_char pack_nat
pack_char-plain c h plain = rw (no_surrogate plain, lt→ltb c (256 ^ 2) (omega arith)) refl
  where
    no_surrogate : (c < 0xd800) ⊎ (0xe000 ≤ c) → (leb 0xd800 c && ltb c 0xe000) ≡ false
    no_surrogate (inl low) = ground arith
    no_surrogate (inr high) = ground arith

pub read_char_lem : (u : ℕ) → u < 2 ^ 15 → Reads pack_char read_char u
unfolding read_char get_int char_unit
read_char_lem u h = (
  to_bytes 2 u,
  pack_char-plain u (omega arith) (inl (omega arith)),
  λ rest. rw (field-to_bytes 2 u rest (omega arith), signed_char u h, char_unit),
)

pub read_bool_byte :
    (b : ℕ) (rest : Stream) → b < 256 → read_bool (b ∷ rest) ≡ ok (not (b == 0), rest)
unfolding read_bool field from_bytes
read_bool_byte b rest h = ground arith

pub read_bool_lem : (b : Bool) → Reads pack_bool read_bool b
unfolding pack_bool
read_bool_lem true = (1 ∷ [], refl, λ rest. read_bool_byte 1 rest (omega arith))
read_bool_lem false = (0 ∷ [], refl, λ rest. read_bool_byte 0 rest (omega arith))

pub read_int_lem : (n : ℕ) (v : ℤ) → 0 < n → Fits (8 * n) v → Reads (pack_int n) (get_int n) v
unfolding pack_int
read_int_lem n v p h = (put_int n v, rw (fits_lem v h), λ rest. get_int-put_int n v rest p h)
  where
    fits_lem : (x : ℤ) → Fits (8 * n) x → fits (8 * n) x ≡ true
    fits_lem (pos a) f = unfold fits in lt→ltb (2 * a) (2 ^ (8 * n)) f
    fits_lem (negsuc a) f = unfold fits in lt→ltb (2 * a) (2 ^ (8 * n)) f

pub read_real_lem :
    (k : RealKind) (v : ℕ) → IsReal k v → Reads (pack_real k) (field (real_size k)) v
unfolding pack_real
read_real_lem k v h =
    (to_bytes (real_size k) v, refl, λ rest. field-to_bytes (real_size k) v rest h)

-- A law for each element gives one for all.
each {ℓ κ μ} :
    {A : Type ℓ} {P : A → Type κ} {Q : A → Type μ} (xs : List A)
    → ((x : A) → P x → Q x)
    → All P xs
    → All Q xs
each [] f h = tt
each (x ∷ xs) f h = (f x h.0, each xs f h.1)

pub round_trip_chars :
    (us : List ℕ) → length us < 2 ^ 31 → All (λ u. u < 2 ^ 15) us → RoundTrips (char_array us)
unfolding write_scalar read_scalar
round_trip_chars us small h =
    let (body, wrote, back) =
      read_array-write_array pack_char read_char us (each us read_char_lem h) (omega arith) in
    (body, rw wrote, λ rest. rw (back rest))

pub round_trip_bools : (bs : List Bool) → length bs < 2 ^ 31 → RoundTrips (bool_array bs)
unfolding write_scalar read_scalar
round_trip_bools bs small =
    let (body, wrote, back) =
      read_array-write_array pack_bool read_bool bs (every bs) (omega arith) in
    (body, rw wrote, λ rest. rw (back rest))
  where
    every : (cs : List Bool) → All (Reads pack_bool read_bool) cs
    every [] = tt
    every (c ∷ cs) = (read_bool_lem c, every cs)

pub round_trip_reals :
    (k : RealKind) (vs : List ℕ)
    → length vs < 2 ^ 31
    → All (IsReal k) vs
    → RoundTrips (real_array k vs)
unfolding write_scalar read_scalar
round_trip_reals k vs small h =
    let (body, wrote, back) =
      read_array-write_array (pack_real k) (field (real_size k)) vs (each vs (read_real_lem k) h)
        (omega arith) in
    (body, rw wrote, λ rest. rw (back rest))

pub round_trip_numbers :
    (k : IntKind) (vs : List ℤ)
    → IsWide k
    → length vs < 2 ^ 31
    → All (Fits (8 * int_size k)) vs
    → RoundTrips (number_array k vs)
unfolding write_scalar read_scalar
round_trip_numbers byte vs wide small h = absurd wide
round_trip_numbers short vs wide small h =
    let (body, wrote, back) =
      read_array-write_array (pack_int 2) (get_int 2) vs
        (each vs (λ v. read_int_lem 2 v (omega arith)) h) (omega arith) in
    (body, rw wrote, λ rest. rw (back rest))
round_trip_numbers int vs wide small h =
    let (body, wrote, back) =
      read_array-write_array (pack_int 4) (get_int 4) vs
        (each vs (λ v. read_int_lem 4 v (omega arith)) h) (omega arith) in
    (body, rw wrote, λ rest. rw (back rest))
round_trip_numbers long vs wide small h =
    let (body, wrote, back) =
      read_array-write_array (pack_int 8) (get_int 8) vs
        (each vs (λ v. read_int_lem 8 v (omega arith)) h) (omega arith) in
    (body, rw wrote, λ rest. rw (back rest))
