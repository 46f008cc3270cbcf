-- ===== src/Connection/Aio/Packets.antt =====
-- What `data_received` passes on of a stream that the transport cuts into pieces.
use python_thin_client.Prelude.{
  ℕ, zero, suc, ◌≤◌, ◌<◌, ◌≡◌, ◌⊎◌, inl, inr, refl, sym, ap, ◌∙◌, true, false, List, [], ◌∷◌, ◌++◌,
  append-nil, append_assoc, concat, length, drop, All, arith, lt→ltb, le→leb, le→ltb, lt→leb,
  le_or_lt, length-append, length-drop, take-append_self, take-append_left, drop-append_self,
}
use python_thin_client.Prelude.Int.{pos}
use python_thin_client.Connection.Receive.{read_packet_len}
use python_thin_client.Connection.Aio.{
  Ended, returned, broken, looping, Handled, handled, failed, has_full_response, fits_in, turn,
  cut_off, slice_to, slice_from, loop, data_received,
}

-- A packet: more than four bytes, of which the first four tell how many follow.
abbrev pub IsPacket : List ℕ → Type 0
IsPacket p = (4 < length p) × (read_packet_len p ≡ pos (length p))

read_packet_len-append :
    (xs ys : List ℕ) → 4 ≤ length xs → read_packet_len (xs ++ ys) ≡ read_packet_len xs
unfolding read_packet_len
read_packet_len-append xs ys h = rw (take-append_left 4 xs ys h)

-- The first packet of a buffer is complete, and is cut off.
first_packet :
    (p rest : List ℕ)
    → IsPacket p
    → (has_full_response (p ++ rest) ≡ true)
      × (slice_to (read_packet_len (p ++ rest)) (p ++ rest) ≡ p)
      × (slice_from (read_packet_len (p ++ rest)) (p ++ rest) ≡ rest)
unfolding has_full_response slice_to slice_from
first_packet p rest h =
    let size : read_packet_len (p ++ rest) ≡ pos (length p) =
      read_packet_len-append p rest (omega arith) ∙ h.1 in
    (
      rw
          (
            size,
            lt→ltb 4 (length (p ++ rest)) (omega (arith, length-append p rest)),
            le→leb (length p) (length (p ++ rest)) (omega (arith, length-append p rest)),
          )
          refl,
      rw (size, take-append_self p rest),
      rw (size, drop-append_self p rest),
    )

-- A part of a packet, from its front, is not taken for a packet.
partial_packet : (t u : List ℕ) → IsPacket (t ++ u) → 0 < length u → has_full_response t ≡ false
unfolding has_full_response
partial_packet t u h more = elim (le_or_lt 5 (length t)) [
  | inr few ↦ rw (le→ltb 4 (length t) (omega arith))
  | inl many ↦
      rw
        (
          lt→ltb 4 (length t) (omega arith),
          sym (read_packet_len-append t u (omega arith)) ∙ h.1,
          lt→leb (length (t ++ u)) (length t) (omega (arith, length-append t u)),
        )
        refl
]

-- Two ways to cut a list.
append_split :
    (us vs xs ys : List ℕ)
    → xs ++ ys ≡ us ++ vs
    → length us ≤ length xs
    → (xs ≡ us ++ drop (length us) xs) × (drop (length us) xs ++ ys ≡ vs)
append_split [] vs xs ys e h = (refl, e)
append_split (u ∷ us) vs [] ys e h = absurd (omega arith)
append_split (u ∷ us) vs (x ∷ xs) ys e h =
    let rest = append_split us vs xs ys (cc) (omega arith) in (cc, rest.1)

no_bytes : has_full_response [] ≡ false
unfolding has_full_response
no_bytes = refl

-- What has arrived of a sequence of packets: some whole ones, and a part of the next.
arrived_split :
    (ps : List (List ℕ)) (x y : List ℕ)
    → All IsPacket ps
    → x ++ y ≡ concat ps
    → (ps1 : List (List ℕ)) × (ps2 : List (List ℕ)) × (t : List ℕ) × (ps ≡ ps1 ++ ps2)
      × All IsPacket ps1
      × All IsPacket ps2
      × (x ≡ concat ps1 ++ t)
      × (t ++ y ≡ concat ps2)
      × (has_full_response t ≡ false)
arrived_split [] [] y h e = ([], [], [], refl, tt, tt, refl, e, no_bytes)
arrived_split [] (b ∷ x) y h e = cc
arrived_split (p ∷ ps) x y h e = elim (le_or_lt (length p) (length x)) [
  | inl whole ↦
      let (cut, after) = append_split p (concat ps) x y e whole in
      let (ps1, ps2, t, q, h1, h2, front, back, part) =
        arrived_split ps (drop (length p) x) y h.1 after in
      (
        p ∷ ps1,
        ps2,
        t,
        ap (◌∷◌ p) q,
        (h.0, h1),
        h2,
        rw append_assoc (cut ∙ ap (λ z. p ++ z) front),
        back,
        part,
      )
  | inr less ↦
      let (cut, after) = append_split x y p (concat ps) (sym e) (omega arith) in
      (
        [],
        p ∷ ps,
        x,
        refl,
        tt,
        h,
        refl,
        e,
        partial_packet x (drop (length x) p) (rw (← cut) (h.0))
            (omega (arith, length-drop (length x) p)),
      )
]

Handled-cases {ℓ} :
    {S : Type ℓ} (h : Handled S) → ((s : S) × (h ≡ handled s)) ⊎ ((s : S) × (h ≡ failed s))
Handled-cases (handled s) = inl (s, refl)
Handled-cases (failed s) = inr (s, refl)

module _ {ℓ} {S : Type ℓ} (process : List ℕ → S → Handled S) where
  -- One packet after the other.
  unfoldable pub process_all : List (List ℕ) → S → Handled S
  process_all [] s = handled s
  process_all (p ∷ ps) s = elim (process p s) [
    | handled s' ↦ process_all ps s'
    | failed s' ↦ failed s'
  ]

  -- The pieces that a transport delivers.
  unfoldable pub feed : List (List ℕ) → List ℕ → S → Ended S
  feed [] buffer s = returned buffer s
  feed (chunk ∷ chunks) buffer s = elim (data_received process chunk buffer s) [
    | returned buffer' s' ↦ feed chunks buffer' s'
    | broken buffer' s' ↦ broken buffer' s'
    | looping buffer' s' ↦ looping buffer' s'
  ]

  process_all-append :
      (ps qs : List (List ℕ)) (s : S) {s' : S}
      → process_all (ps ++ qs) s ≡ handled s'
      → (m : S) × (process_all ps s ≡ handled m) × (process_all qs m ≡ handled s')
  unfolding process_all
  process_all-append [] qs s h = (s, refl, h)
  process_all-append (p ∷ ps) qs s {s'} h = elim (Handled-cases (process p s)) [
    | inl (m, e) ↦ rw (e, process_all) (process_all-append ps qs m (rw (e, process_all) at h))
    | inr (m, e) ↦ let bad : failed m ≡ handled s' = rw (e, process_all) at h in cc
  ]

  turn_lem :
      (next : List ℕ → S → Ended S) (p rest : List ℕ) (s m : S)
      → IsPacket p
      → process p s ≡ handled m
      → turn process next (has_full_response (p ++ rest)) (p ++ rest) s ≡ next rest m
  unfolding turn cut_off
  turn_lem next p rest s m h e =
      let (full, packet, after) = first_packet p rest h in rw (full, packet, e, after) refl

  loop_lem :
      (fuel : ℕ) (ps : List (List ℕ)) (t : List ℕ) (s : S) {s' : S}
      → All IsPacket ps
      → has_full_response t ≡ false
      → length ps < fuel
      → process_all ps s ≡ handled s'
      → loop process fuel (concat ps ++ t) s ≡ returned t s'
  unfolding loop process_all
  loop_lem zero ps t s h part enough done = absurd (omega arith)
  loop_lem (suc fuel) [] t s h part enough done = rw part (cc)
  loop_lem (suc fuel) (p ∷ ps) t s {s'} h part enough done = elim (Handled-cases (process p s)) [
    | inl (m, e) ↦ rw append_assoc (
        turn_lem (loop process fuel) p (concat ps ++ t) s m h.0 e
        ∙ loop_lem fuel ps t m h.1 part (omega arith) (rw (e, process_all) at done))
    | inr (m, e) ↦ let bad : failed m ≡ handled s' = rw (e, process_all) at done in cc
  ]

  -- Every packet is five bytes at least.
  length-concat : (ps : List (List ℕ)) → All IsPacket ps → length ps ≤ length (concat ps)
  length-concat [] h = omega arith
  length-concat (p ∷ ps) h = omega (arith, length-append p (concat ps), length-concat ps h.1)

  feed_lem :
      (chunks ps : List (List ℕ)) (t : List ℕ) (s : S) {s' : S}
      → All IsPacket ps
      → has_full_response t ≡ false
      → t ++ concat chunks ≡ concat ps
      → process_all ps s ≡ handled s'
      → feed chunks t s ≡ returned [] s'
  unfolding feed data_received process_all
  feed_lem [] [] t s h part e done = let empty : t ≡ [] = sym (append-nil t) ∙ e in cc
  feed_lem [] (p ∷ ps) t s h part e done =
      let same : t ≡ p ++ concat ps = sym (append-nil t) ∙ e in
      let full : has_full_response (p ++ concat ps) ≡ true = (first_packet p (concat ps) h.0).0 in
      let partial : has_full_response (p ++ concat ps) ≡ false = rw (← same) part in cc
  feed_lem (chunk ∷ chunks) ps t s {s'} h part e done =
      let whole : (t ++ chunk) ++ concat chunks ≡ concat ps = rw append_assoc e in
      let (ps1, ps2, t', q, h1, h2, front, back, part') =
        arrived_split ps (t ++ chunk) (concat chunks) h whole in
      let (m, done1, done2) = process_all-append ps1 ps2 s (rw q at done) in
      let received : data_received process chunk t s ≡ returned t' m = rw front (
        loop_lem (suc (length (concat ps1 ++ t'))) ps1 t' s h1 part'
          (omega (arith, length-append (concat ps1) t', length-concat ps1 h1)) done1) in
      rw (received, feed) (feed_lem chunks ps2 t' m h2 part' back done2)

  -- A sequence of packets is processed one by one and leaves the buffer empty, whatever the pieces in
  -- which it arrives, if processing them one after the other raises nothing.
  pub feed-process_all :
      (chunks ps : List (List ℕ)) (s s' : S)
      → All IsPacket ps
      → concat chunks ≡ concat ps
      → process_all ps s ≡ handled s'
      → feed chunks [] s ≡ returned [] s'
  feed-process_all chunks ps s s' h e done = feed_lem chunks ps [] s h no_bytes e done

  -- A buffer of more than four bytes whose length field is -4 keeps the loop busy for ever, where
  -- processing an empty packet raises nothing: no number of rounds is enough.
  pub loop_endless :
      (fuel : ℕ) (buffer : List ℕ) (s : S)
      → 4 < length buffer
      → read_packet_len buffer ≡ pos 0
      → process [] s ≡ handled s
      → loop process fuel buffer s ≡ looping buffer s
  unfolding loop turn cut_off has_full_response slice_to slice_from
  loop_endless zero buffer s long empty idle = refl
  loop_endless (suc fuel) buffer s long empty idle =
      rw
        (
          lt→ltb 4 (length buffer) long,
          empty,
          fits_in,
          le→leb 0 (length buffer) (omega arith),
          turn,
          empty,
          idle,
          cut_off,
          empty,
        )
        (loop_endless fuel buffer s long empty idle)
