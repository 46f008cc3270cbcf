-- ===== src/Connection/Receive/Fragments.antt =====
-- The receiving of a packet that is cut into pieces.
use python_thin_client.Prelude.{
  ℕ, zero, suc, ◌+◌, ◌-◌, ◌≤◌, ◌<◌, ◌≡◌, ◌⊎◌, inl, inr, refl, ap, sym, ◌∙◌, Bool, true, false, ◌&&◌,
  Option, none, some, List, [], ◌∷◌, ◌++◌, ltb, leb, ◌==◌, length, take, drop, All, arith,
  length-append, length-take, length-drop, length-replicate, append_assoc, append-nil,
  take-append_self, take-append-drop, Bool-cases, ltb→lt,
}
use python_thin_client.Prelude.Int.{ℤ, pos, ◌+ℤ◌}
use python_thin_client.Prelude.Numbers.{eq_ℤ, to_signed}
use python_thin_client.Prelude.Outcome.{Outcome, ok, raised}
use python_thin_client.Datatypes.Wire.{from_bytes}
use python_thin_client.Connection.Receive.{
  Socket, remain, recv_into, Loop, initial, Turn, done, again, advance, is_complete,
  read_packet_len, grow, measured, turn, round, RecvError, socket_error, recv_loop, recv,
}
use python_thin_client.Connection.Receive.Buffer.{
  concat, IsFilled, zeros, loop_at, loop, take-append, store_lem, zeros-append,
}

module _ (msg : List ℕ) (prefix : read_packet_len msg ≡ pos (length msg)) where
  -- the length of the buffer for this packet
  abbrev buffer_len : ℕ
  buffer_len = 1024 + (length msg - 1024)

  abbrev after : ℕ → Socket → Turn → Outcome RecvError (List ℕ)
  after fuel cs t = elim t [ done received ↦ ok received | again l ↦ recv_loop fuel l cs ]

  -- The outcome is the packet, in a buffer of that length.
  abbrev IsWhole : Outcome RecvError (List ℕ) → Type 0
  IsWhole r =
      (received : List ℕ) × (r ≡ ok received)
      × (take (length msg) received ≡ msg)
      × (length received ≡ buffer_len)

  empty : (xs : List ℕ) → length xs ≡ 0 → xs ≡ []
  empty [] h = refl
  empty (x ∷ xs) h = absurd (omega arith)

  -- Once the length is known, the loop ends when everything has arrived.
  settled :
      (fuel s n : ℕ) (got : List ℕ) (room : ℕ) (cs : Socket)
      → s + n ≡ length got
      → 0 < length msg
      → got ++ concat cs ≡ msg
      → length got + room ≡ buffer_len
      → (0 < length (concat cs) → IsWhole (recv_loop fuel (loop (pos (length msg)) got room) cs))
      → IsWhole (after fuel cs (advance n (loop_at s (pos (length msg)) got room)))
  unfolding advance
  settled fuel s n got room cs at_end long whole size rest =
      elim (Bool-cases (leb (length msg) (length got))) [
        | inl all ↦
            let count : length got + length (concat cs) ≡ length msg =
              sym (length-append got (concat cs)) ∙ ap length whole in
            let nothing : concat cs ≡ [] = empty (concat cs) (ground arith) in
            let same : got ≡ msg =
              sym (append-nil got) ∙ ap (λ t. got ++ t) (sym nothing) ∙ whole in
            (
              got ++ zeros room,
              rw (is_complete_lem true (ground arith)) refl,
              ap (λ t. take (length t) (got ++ zeros room)) (sym same)
                  ∙ take-append_self got (zeros room)
                  ∙ same,
              length-append got (zeros room)
                  ∙ ap (λ t. length got + t) (length-replicate room 0)
                  ∙ size,
            )
        | inr more ↦
            let count : length got + length (concat cs) ≡ length msg =
              sym (length-append got (concat cs)) ∙ ap length whole in
            rw (is_complete_lem false (ground arith)) (rw at_end (rest (ground arith)))
      ]
    where
      is_complete_lem :
          (b : Bool)
          → (ltb 0 (length msg) && leb (length msg) (length got)) ≡ b
          → is_complete (pos (length msg)) (length got) ≡ b
      is_complete_lem b e = unfold is_complete in e

  -- Before the length is known, and after.
  abbrev Before : ℤ → List ℕ → ℕ → Type 0
  Before pl got room = (pl ≡ pos 0) × (length got + room ≡ 1024)

  abbrev After : ℤ → List ℕ → ℕ → Type 0
  After pl got room = (pl ≡ pos (length msg)) × (length got + room ≡ buffer_len)

  -- The first four bytes give the length of the packet.
  prefix_lem :
      (got : List ℕ) (room : ℕ) (cs : Socket)
      → got ++ concat cs ≡ msg
      → 4 ≤ length got
      → read_packet_len (got ++ zeros room) ≡ pos (length msg)
  unfolding read_packet_len
  prefix_lem got room cs whole enough =
      let front : take 4 (got ++ zeros room) ≡ take 4 msg =
        take-append 4 got (zeros room) enough
        ∙ sym (take-append 4 got (concat cs) enough)
        ∙ ap (take 4) whole in
      ap (λ t. to_signed 32 (from_bytes t) +ℤ pos 4) front ∙ prefix

  abbrev Next : ℕ → List ℕ → Socket → Type 0
  Next fuel got cs =
      (pl : ℤ) (room : ℕ)
      → (Before pl got room × (length got ≤ 4)) ⊎ After pl got room
      → 0 < length (concat cs)
      → IsWhole (recv_loop fuel (loop pl got room) cs)

  grown :
      (fuel s n : ℕ) (got : List ℕ) (room : ℕ) (cs : Socket)
      → s + n ≡ length got
      → 4 < length got
      → got ++ concat cs ≡ msg
      → length got + room ≡ 1024
      → Next fuel got cs
      → IsWhole (after fuel cs (measured n (pos (length msg)) (loop_at s (pos 0) got room)))
  unfolding measured grow
  grown fuel s n got room cs at_end known whole size rest =
      let count : length got + length (concat cs) ≡ length msg =
        sym (length-append got (concat cs)) ∙ ap length whole in
      let filled : length (got ++ zeros room) ≡ 1024 =
        length-append got (zeros room)
        ∙ ap (λ t. length got + t) (length-replicate room 0)
        ∙ size in
      elim (Bool-cases (ltb 1024 (length msg))) [
        | inl over ↦
            rw (filled, over, measured, grow, append_assoc, zeros-append)
              (rest (pos (length msg)) (room + (length msg - 1024)) (inr (refl, omega arith))
                (ground arith))
        | inr fits ↦
            rw (filled, fits, measured, grow)
              (settled fuel s n got room cs at_end (omega arith) whole (ground arith)
                (rest (pos (length msg)) room (inr (refl, ground arith))))
      ]

  turn_lem :
      (fuel s n : ℕ) (pl : ℤ) (got : List ℕ) (room : ℕ) (cs : Socket)
      → s + n ≡ length got
      → 4 < length msg
      → got ++ concat cs ≡ msg
      → Before pl got room ⊎ After pl got room
      → Next fuel got cs
      → IsWhole (after fuel cs (turn n (loop_at s pl got room)))
  unfolding turn eq_ℤ advance is_complete
  turn_lem fuel s n pl got room cs at_end long whole (inl before) rest =
      elim (Bool-cases (ltb 4 (length got))) [
        | inl known ↦
            rw (before.0, known, prefix_lem got room cs whole (ground arith))
              (grown fuel s n got room cs at_end (ltb→lt 4 (length got) known) whole before.1 rest)
        | inr short ↦
            let count : length got + length (concat cs) ≡ length msg =
              sym (length-append got (concat cs)) ∙ ap length whole in
            rw (before.0, short, at_end)
              (rest (pos 0) room (inl ((refl, before.1), ground arith)) (ground arith))
      ]
  turn_lem fuel s n pl got room cs at_end long whole (inr known) rest =
      let not_zero : (length msg == 0) ≡ false = ground arith in
      rw (known.0, not_zero)
        (settled fuel s n got room cs at_end (omega arith) whole known.1
          (rest (pos (length msg)) room (inr (refl, known.1))))

  -- One call of `recv_into`.
  remain-concat : (bs : List ℕ) (cs : Socket) → concat (remain bs cs) ≡ bs ++ concat cs
  unfolding remain
  remain-concat [] cs = refl
  remain-concat (b ∷ bs) cs = refl

  remain-IsFilled : (bs : List ℕ) (cs : Socket) → All IsFilled cs → All IsFilled (remain bs cs)
  unfolding remain
  remain-IsFilled [] cs h = h
  remain-IsFilled (b ∷ bs) cs h = (tt, h)

  round_lem :
      (pl : ℤ) (got : List ℕ) (b : ℕ) (bs : List ℕ) (room : ℕ)
      → round (loop pl got room) (b ∷ bs)
        ≡ some (
            turn
              (length (b ∷ bs))
              (loop_at (length got) pl (got ++ (b ∷ bs)) (room - length (b ∷ bs))))
  unfolding round
  round_lem pl got b bs room = ground (arith, store_lem pl got (b ∷ bs) room)

  abbrev outcome : ℕ → Socket → Option Turn → Outcome RecvError (List ℕ)
  outcome fuel cs o = elim o [
    | none ↦ raised socket_error
    | some (done received) ↦ ok received
    | some (again l) ↦ recv_loop fuel l cs
  ]

  recv_loop_step :
      (fuel : ℕ) (l : Loop) (cs : Socket) {bytes : List ℕ} {cs' : Socket} {t : Turn}
      → recv_into (length l.received - l.start) cs ≡ (bytes, cs')
      → round l bytes ≡ some t
      → recv_loop (suc fuel) l cs ≡ after fuel cs' t
  unfolding recv_loop
  recv_loop_step fuel l cs {bytes} {cs'} {t} into turned =
      ap (λ p. outcome fuel p.1 (round l p.0)) into ∙ ap (outcome fuel cs') turned ∙ at_turn t
    where
      at_turn : (u : Turn) → outcome fuel cs' (some u) ≡ after fuel cs' u
      at_turn (done received) = refl
      at_turn (again l') = refl

  state :
      (pl : ℤ) (got got' : List ℕ) (room room' : ℕ)
      → length got' + room' ≡ length got + room
      → (Before pl got room × (length got ≤ 4)) ⊎ After pl got room
      → Before pl got' room' ⊎ After pl got' room'
  state pl got got' room room' size (inl (before, short)) = inl (before.0, size ∙ before.1)
  state pl got got' room room' size (inr known) = inr (known.0, size ∙ known.1)

  -- From a buffer with room, and pieces that are not empty, the packet is received.
  recv_loop_lem :
      (fuel : ℕ) (pl : ℤ) (got : List ℕ) (room : ℕ) (cs : Socket)
      → 4 < length msg
      → got ++ concat cs ≡ msg
      → (Before pl got room × (length got ≤ 4)) ⊎ After pl got room
      → All IsFilled cs
      → length (concat cs) ≤ fuel
      → 0 < length (concat cs)
      → IsWhole (recv_loop fuel (loop pl got room) cs)
  recv_loop_lem zero pl got room cs long whole known filled enough left = absurd (omega arith)
  recv_loop_lem (suc fuel) pl got room [] long whole known filled enough left = absurd (omega arith)
  recv_loop_lem (suc fuel) pl got zero (c ∷ cs) long whole known filled enough left =
      let count : length got + length (concat (c ∷ cs)) ≡ length msg =
        sym (length-append got (concat (c ∷ cs))) ∙ ap length whole in
      absurd (omega arith)
  recv_loop_lem (suc fuel) pl got (suc room) ([] ∷ cs) long whole known filled enough left =
      absurd filled.0
  recv_loop_lem (suc fuel) pl got (suc room) ((b ∷ bs) ∷ cs) long whole known filled enough left =
      let k = b ∷ take room bs in
      let cs' = remain (drop room bs) cs in
      let rest : concat cs' ≡ drop room bs ++ concat cs = remain-concat (drop room bs) cs in
      let free : length (got ++ zeros (suc room)) - length got ≡ suc room =
        omega (arith, length-append got (zeros (suc room)), length-replicate {A = ℕ} room 0) in
      let received : recv_into (length (got ++ zeros (suc room)) - length got) ((b ∷ bs) ∷ cs)
          ≡ (k, cs') =
        unfold recv_into in rw free refl in
      let whole' : (got ++ k) ++ concat cs' ≡ msg =
        ap (λ t. (got ++ k) ++ t) rest
        ∙ append_assoc got k (drop room bs ++ concat cs)
        ∙ ap (λ t. got ++ (b ∷ t))
            (sym (append_assoc (take room bs) (drop room bs) (concat cs))
              ∙ ap (λ t. t ++ concat cs) (take-append-drop room bs))
        ∙ whole in
      let size : length (got ++ k) + (suc room - length k) ≡ length got + suc room =
        omega (arith, length-append got k, length-take room bs) in
      let fewer : length (concat cs') ≤ fuel = omega (
        arith,
        ap length rest,
        length-append (drop room bs) (concat cs),
        length-drop room bs,
        length-append bs (concat cs),
      ) in
      let step =
        recv_loop_step fuel (loop pl got (suc room)) ((b ∷ bs) ∷ cs) received
          (round_lem pl got b (take room bs) (suc room)) in
      rw step (
        turn_lem fuel (length got) (length k) pl (got ++ k) (suc room - length k) cs'
          (sym (length-append got k)) long whole'
          (state pl got (got ++ k) (suc room) (suc room - length k) size known)
          (λ pl' room' known' left'.
            recv_loop_lem fuel pl' (got ++ k) room' cs' long whole' known'
              (remain-IsFilled (drop room bs) cs filled.1) fewer left'))

-- A packet of more than four bytes whose first four give its length is received in as many rounds as
-- it has bytes, however it is cut into pieces that are not empty: it stands at the front of the
-- buffer, which is as long as the packet, or of the initial length if that is more.
pub recv_whole :
    (msg : List ℕ) (cs : Socket)
    → read_packet_len msg ≡ pos (length msg)
    → 4 < length msg
    → concat cs ≡ msg
    → All IsFilled cs
    → (received : List ℕ) × (recv (length msg) cs ≡ ok received)
      × (take (length msg) received ≡ msg)
      × (length received ≡ 1024 + (length msg - 1024))
unfolding recv initial
recv_whole msg cs prefix long whole filled =
    recv_loop_lem msg prefix (length msg) (pos 0) [] 1024 cs long whole
      (inl ((refl, omega arith), omega arith)) filled (omega (arith, ap length whole))
      (omega (arith, ap length whole))
