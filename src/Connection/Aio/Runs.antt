-- ===== src/Connection/Aio/Runs.antt =====
-- The asynchronous connection on concrete requests and packets.
use python_thin_client.Prelude.{ℕ, ◌<◌, ◌≡◌, ◌≢◌, refl, List, [], ◌∷◌, arith}
use python_thin_client.Prelude.Int.{pos, ◌+ℤ◌}
use python_thin_client.Prelude.Numbers.{to_signed, eq_ℤ}
use python_thin_client.Prelude.Dict.{lookup, insert, delete, int_key, Entries}
use python_thin_client.Datatypes.Wire.{from_bytes}
use python_thin_client.Connection.Receive.{read_packet_len}
use python_thin_client.Connection.Aio.{
  returned, looping, handled, failed, waiting, excepted, result, AioConnection, put, is_waiting,
  connected, send, cancel, process_message, process_connection_lost, loop, request_id, answer,
}
use python_thin_client.Connection.Aio.Packets.{feed, process_all, feed-process_all, loop_endless}
use python_thin_client.Connection.Aio.Pending.{
  sent, given_up, Reach, here, next, IsSound, Reach-IsSound, process_message-answers,
}
use python_thin_client.Connection.Aio.Ending.{
  process_connection_lost_ends, process_connection_lost_stops,
}

-- An answer to the request 1, with one byte behind the identifier.
abbrev packet : List ℕ
packet = 9 ∷ 0 ∷ 0 ∷ 0 ∷ 1 ∷ 0 ∷ 0 ∷ 0 ∷ 0 ∷ 0 ∷ 0 ∷ 0 ∷ 7 ∷ []

abbrev two_sent : AioConnection
unfolding send
two_sent = send (pos 2) (send (pos 1) connected)

two_sent_reached : Reach connected two_sent
unfolding send lookup insert eq_ℤ
two_sent_reached = next (next here (sent (pos 1) refl)) (sent (pos 2) refl)

abbrev answered : AioConnection
unfolding send put delete
answered = record two_sent {
  future = put 0 (result packet) two_sent.future;
  pending_reqs = delete (pos 1) two_sent.pending_reqs;
}

feed_example :
    feed process_message
      ((9 ∷ 0 ∷ []) ∷ (0 ∷ 0 ∷ 1 ∷ []) ∷ (0 ∷ 0 ∷ 0 ∷ 0 ∷ 0 ∷ 0 ∷ 0 ∷ 7 ∷ []) ∷ [])
      []
      two_sent
    ≡ returned [] answered
unfolding process_all process_message answer request_id from_bytes to_signed lookup send insert eq_ℤ
    is_waiting put delete read_packet_len ◌+ℤ◌
feed_example =
    feed-process_all process_message
      ((9 ∷ 0 ∷ []) ∷ (0 ∷ 0 ∷ 1 ∷ []) ∷ (0 ∷ 0 ∷ 0 ∷ 0 ∷ 0 ∷ 0 ∷ 0 ∷ 7 ∷ []) ∷ []) (packet ∷ [])
      two_sent answered ((omega arith, refl), tt) refl refl

-- A length field of -4, before anything was sent.
loop_endless_example :
    loop process_message 1000 (252 ∷ 255 ∷ 255 ∷ 255 ∷ 0 ∷ []) connected
    ≡ looping (252 ∷ 255 ∷ 255 ∷ 255 ∷ 0 ∷ []) connected
unfolding process_message answer lookup request_id from_bytes to_signed read_packet_len ◌+ℤ◌
loop_endless_example =
    loop_endless process_message 1000 (252 ∷ 255 ∷ 255 ∷ 255 ∷ 0 ∷ []) connected (omega arith) refl
      refl

Reach-IsSound_example : IsSound two_sent
Reach-IsSound_example = Reach-IsSound two_sent_reached

process_message-answers_example :
    (d : AioConnection) × (process_message packet two_sent ≡ handled d)
    × ((d.future 0).state ≡ result packet)
    × ((j : ℕ) → j ≢ 0 → d.future j ≡ two_sent.future j)
unfolding send request_id from_bytes to_signed
process_message-answers_example =
    process_message-answers 0 packet two_sent_reached (omega arith) refl refl

process_connection_lost_ends_example :
    (d : AioConnection) × (process_connection_lost two_sent ≡ handled d)
    × (d.pending_reqs ≡ [])
    × ((i : ℕ) → i < 2 → (two_sent.future i).state ≡ waiting → (d.future i).state ≡ excepted)
    × ((i : ℕ) (p : List ℕ) → (two_sent.future i).state ≡ result p → d.future i ≡ two_sent.future i)
unfolding send
process_connection_lost_ends_example =
    process_connection_lost_ends two_sent_reached (λ i h. ground arith)

process_connection_lost_stops_example :
    (d : AioConnection) × (process_connection_lost (cancel 0 two_sent) ≡ failed d)
    × (d.pending_reqs ≡ (cancel 0 two_sent).pending_reqs)
    × Entries (λ p j. d.future j ≡ (cancel 0 two_sent).future j) ((pos 2, 1) ∷ [])
unfolding send cancel put is_waiting insert eq_ℤ
process_connection_lost_stops_example =
    process_connection_lost_stops [] ((pos 2, 1) ∷ []) (pos 1) 0
      (next two_sent_reached (given_up 0)) refl tt refl
