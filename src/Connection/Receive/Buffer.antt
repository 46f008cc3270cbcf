-- ===== src/Connection/Receive/Buffer.antt =====
-- The buffer of the loop, and what one call of `recv_into` leaves of the pieces.
use python_thin_client.Prelude.{
  ℕ, zero, suc, ◌+◌, ◌-◌, ◌≤◌, ◌≡◌, refl, ap, sym, ◌∙◌, List, [], ◌∷◌, ◌++◌, length, take, drop,
  replicate, arith, length-append, append_assoc, take-append_self,
}
use python_thin_client.Prelude.Int.{ℤ}
use python_thin_client.Connection.Receive.{Socket, Loop, store}

abbrev pub concat : Socket → List ℕ
concat [] = []
concat (c ∷ cs) = c ++ concat cs

abbrev pub IsFilled : List ℕ → Type 0
IsFilled [] = ⊥
IsFilled (b ∷ bs) = Unit {0}

abbrev pub zeros : ℕ → List ℕ
zeros n = replicate n 0

drop-append : (n : ℕ) (xs ys : List ℕ) → drop (length xs + n) (xs ++ ys) ≡ drop n ys
drop-append n [] ys = ap (λ t. drop t ys) (omega arith)
drop-append n (x ∷ xs) ys =
    let more : length (x ∷ xs) + n ≡ suc (length xs + n) = omega arith in
    ap (λ t. drop t (x ∷ (xs ++ ys))) more ∙ drop-append n xs ys

drop-zeros : (n room : ℕ) → drop n (zeros room) ≡ zeros (room - n)
drop-zeros zero room = let same : room ≡ room - 0 = omega arith in ap zeros same
drop-zeros (suc n) zero = let same : 0 ≡ 0 - suc n = omega arith in ap zeros same
drop-zeros (suc n) (suc room) =
    let same : room - n ≡ suc room - suc n = omega arith in drop-zeros n room ∙ ap zeros same

pub zeros-append : (m n : ℕ) → zeros m ++ zeros n ≡ zeros (m + n)
zeros-append zero n = let same : n ≡ 0 + n = omega arith in ap zeros same
zeros-append (suc m) n =
    let more : suc m + n ≡ suc (m + n) = omega arith in
    ap (λ t. 0 ∷ t) (zeros-append m n) ∙ ap zeros (sym more)

pub take-append : (n : ℕ) (xs ys : List ℕ) → n ≤ length xs → take n (xs ++ ys) ≡ take n xs
take-append zero xs ys h = refl
take-append (suc n) [] ys h = absurd (omega arith)
take-append (suc n) (x ∷ xs) ys h = ap (λ t. x ∷ t) (take-append n xs ys (omega arith))

-- The state of the loop when `got` was received, `room` bytes of the buffer are free, and the view
-- starts at `s`.
abbrev pub loop_at : ℕ → ℤ → List ℕ → ℕ → Loop
loop_at s pl got room = record {
  received = got ++ zeros room;
  start = s;
  total_rcvd = length got;
  packet_len = pl;
}

abbrev pub loop : ℤ → List ℕ → ℕ → Loop
loop pl got room = loop_at (length got) pl got room

-- Storing a piece appends it to what was received.
pub store_lem :
    (pl : ℤ) (got k : List ℕ) (room : ℕ)
    → store k (loop pl got room) ≡ loop_at (length got) pl (got ++ k) (room - length k)
unfolding store
store_lem pl got k room =
    let kept = take-append_self got (zeros room) in
    let free = drop-append (length k) got (zeros room) ∙ drop-zeros (length k) room in
    let bytes : take (length got) (got ++ zeros room)
          ++ (k ++ drop (length got + length k) (got ++ zeros room))
        ≡ (got ++ k) ++ zeros (room - length k) =
      rw (kept, free) (sym (append_assoc got k (zeros (room - length k)))) in
    rw (bytes, length-append) refl
