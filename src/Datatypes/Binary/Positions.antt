-- ===== src/Datatypes/Binary/Positions.antt =====
-- Where parts of a sequence of bytes stand.
use mathlib.Core.Path.{subst}
use python_thin_client.Prelude.{
  ℕ, zero, suc, ◌+◌, ◌*◌, ◌^◌, ◌≤◌, ◌<◌, ◌≡◌, refl, ap, ◌∙◌, List, [], ◌∷◌, ◌++◌, append_assoc,
  get_elem?, some, take, drop, length, concat, length-append, drop-append_right, drop-append_self,
  drop-drop, take-append_self, All, arith,
}
use python_thin_client.Datatypes.Wire.{to_bytes, from_bytes, length-to_bytes, from_bytes-to_bytes}
use python_thin_client.Datatypes.Binary.{max_of}
use python_thin_client.Datatypes.Binary.Offsets.{starts}

abbrev pub number_at : ℕ → ℕ → List ℕ → ℕ
number_at position size object = from_bytes (take size (drop position object))

pub number_at-to_bytes :
    (k n v : ℕ) (object rest : List ℕ)
    → drop k object ≡ to_bytes n v ++ rest
    → v < 256 ^ n
    → number_at k n object ≡ v
number_at-to_bytes k n v object rest e h =
    let cut : take n (to_bytes n v ++ rest) ≡ to_bytes n v =
      subst (λ m. take m (to_bytes n v ++ rest) ≡ to_bytes n v) (length-to_bytes n v)
        (take-append_self (to_bytes n v) rest) in
    rw (e, cut) (from_bytes-to_bytes n v h)

-- What stands in an element of an array behind what comes before the array.
pub drop_element :
    (k i w b : ℕ) (front array id entry others : List ℕ)
    → length front ≡ k
    → length id ≡ b
    → drop (i * w) array ≡ (id ++ entry) ++ others
    → drop (k + (i * w + b)) (front ++ array) ≡ entry ++ others
drop_element k i w b front array id entry others e f found =
    rw
      (
        ← e,
        drop-append_right (i * w + b) front array,
        ← drop-drop (i * w) b array,
        found,
        append_assoc,
        ← f,
        drop-append_self id (entry ++ others),
      )
      refl

-- What stands behind two parts.
pub drop_behind :
    (k : ℕ) (front before rest : List ℕ)
    → length front ≡ k
    → drop (k + length before) (front ++ (before ++ rest)) ≡ rest
drop_behind k front before rest f =
    rw (← f, drop-append_right (length before) front (before ++ rest), drop-append_self before rest)
      refl

-- An array of elements of the same size.
pub element_at :
    (w i : ℕ) (elems : List (List ℕ)) (e : List ℕ)
    → All (λ x. length x ≡ w) elems
    → get_elem? elems i ≡ some e
    → (rest : List ℕ) × (drop (i * w) (concat elems) ≡ e ++ rest)
element_at w i [] e h there = cc
element_at w zero (x ∷ elems) e h there =
    let none_before : 0 * w ≡ 0 = omega arith in (concat elems, rw none_before (cc))
element_at w (suc i) (x ∷ elems) e h there =
    let (rest, found) = element_at w i elems e h.1 there in
    let one_more : suc i * w ≡ length x + i * w = grind (arith, h.0) in
    (rest, rw one_more (drop-append_right (i * w) x (concat elems) ∙ found))

pub length-elements :
    (w : ℕ) (elems : List (List ℕ))
    → All (λ x. length x ≡ w) elems
    → length (concat elems) ≡ length elems * w
length-elements w [] h = omega arith
length-elements w (x ∷ elems) h =
    grind (arith, length-append x (concat elems), length-elements w elems h.1, h.0)

pub starts-get_elem? :
    (o : ℕ) (before after : List (List ℕ)) (part : List ℕ)
    → get_elem? (starts o (before ++ part ∷ after)) (length before)
      ≡ some (o + length (concat before))
starts-get_elem? o [] after part = ap some (omega arith)
starts-get_elem? o (x ∷ before) after part =
    let more : o + length x + length (concat before) ≡ o + length (x ++ concat before) =
      omega (arith, length-append x (concat before)) in
    starts-get_elem? (o + length x) before after part ∙ ap some more

pub get_elem?-le-max_of : (os : List ℕ) (i o : ℕ) → get_elem? os i ≡ some o → o ≤ max_of os
unfolding max_of
get_elem?-le-max_of [] i o there = cc
get_elem?-le-max_of (p ∷ os) zero o there = let same : p ≡ o = cc in omega arith
get_elem?-le-max_of (p ∷ os) (suc i) o there = omega (arith, get_elem?-le-max_of os i o there)
