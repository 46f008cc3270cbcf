-- ===== src/Connection/Receive/Runs.antt =====
-- Runs of receiving a packet.
use python_thin_client.Prelude.{ℕ, ◌+◌, ◌-◌, ◌≡◌, refl, List, [], ◌∷◌, arith, length, take}
use python_thin_client.Prelude.Int.{◌+ℤ◌}
use python_thin_client.Prelude.Numbers.{to_signed}
use python_thin_client.Prelude.Outcome.{ok}
use python_thin_client.Datatypes.Wire.{from_bytes}
use python_thin_client.Connection.Receive.{recv, read_packet_len, Socket}
use python_thin_client.Connection.Receive.Fragments.{recv_whole}

abbrev packet : List ℕ
packet = 3 ∷ 0 ∷ 0 ∷ 0 ∷ 7 ∷ 8 ∷ 9 ∷ []

abbrev pieces : Socket
pieces = (3 ∷ 0 ∷ []) ∷ (0 ∷ 0 ∷ 7 ∷ []) ∷ (8 ∷ 9 ∷ []) ∷ []

recv_whole_example :
    (received : List ℕ) × (recv 7 pieces ≡ ok received)
    × (take 7 received ≡ packet)
    × (length received ≡ 1024 + (7 - 1024))
unfolding read_packet_len to_signed from_bytes ◌+ℤ◌
recv_whole_example = recv_whole packet pieces refl (omega arith) refl (tt, (tt, (tt, tt)))
