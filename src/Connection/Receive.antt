-- ===== src/Connection/Receive.antt =====
-- `Connection.recv` of pygridgain/connection/connection.py: one packet out of a socket that delivers
-- it in pieces. The flags and the reconnection that a broken connection starts are left out.
pub mod Buffer
pub mod Fragments
mod Runs
use python_thin_client.Prelude.{
  ℕ, zero, suc, ◌+◌, ◌-◌, ◌*◌, ◌/◌, ◌^◌, ◌≤◌, ◌<◌, Bool, true, false, ◌&&◌, Option, none, some,
  List, [], ◌∷◌, ◌++◌, ltb, leb, ◌==◌, if◌then◌else◌, length, take, drop, replicate,
}
use python_thin_client.Prelude.Int.{ℤ, pos, negsuc, ltb_ℤ, ◌≤ℤ◌, ◌+ℤ◌}
use python_thin_client.Prelude.Numbers.{eq_ℤ, to_signed}
use python_thin_client.Prelude.Outcome.{Outcome, ok, raised}
use python_thin_client.Datatypes.Wire.{from_bytes}

-- What the calls of `recv_into` to come find: the bytes that arrived by then. Nothing, or the end
-- of the list, is a connection that the other side has closed.
abbrev pub Socket : Type 0
Socket = List (List ℕ)

unfoldable pub remain : List ℕ → Socket → Socket
remain [] socket = socket
remain (b ∷ bs) socket = (b ∷ bs) ∷ socket

-- `recv_into` a buffer of n bytes, which keeps back what does not fit
unfoldable pub recv_into : ℕ → Socket → List ℕ × Socket
unfolding remain
recv_into n [] = ([], [])
recv_into n (chunk ∷ socket) = (take n chunk, remain (drop n chunk) socket)

abbrev pub default_initial_buf_size : ℕ
default_initial_buf_size = 1024

-- The state of the loop. The memory view `buffer` is the part of `received` from `start` on.
pub record Loop : Type 0 where
  pub received : List ℕ
  pub start : ℕ
  pub total_rcvd : ℕ
  pub packet_len : ℤ

unfoldable pub initial : Loop
initial = record {
  received = replicate default_initial_buf_size 0;
  start = 0;
  total_rcvd = 0;
  packet_len = pos 0;
}

-- the bytes that `recv_into` put into the view
unfoldable pub store : List ℕ → Loop → Loop
store bytes l = record l {
  received = take l.start l.received ++ (bytes ++ drop (l.start + length bytes) l.received);
  total_rcvd = l.total_rcvd + length bytes;
}

pub data Turn : Type 0 where
  done : List ℕ → Turn
  again : Loop → Turn

-- 0 < packet_len <= total_rcvd
unfoldable pub is_complete : ℤ → ℕ → Bool
is_complete (pos n) total_rcvd = ltb 0 n && leb n total_rcvd
is_complete (negsuc n) total_rcvd = false

-- the end of the loop's body: the packet is complete, or the view moves on
unfoldable pub advance : ℕ → Loop → Turn
unfolding is_complete
advance bytes_rcvd l =
    if is_complete l.packet_len l.total_rcvd
    then done l.received
    else again (record l { start = l.start + bytes_rcvd })

-- the length of the packet, from its first four bytes
unfoldable pub read_packet_len : List ℕ → ℤ
read_packet_len received = to_signed 32 (from_bytes (take 4 received)) +ℤ pos 4

-- a buffer that is too short grows to the length of the packet
unfoldable pub grow : ℤ → Loop → Option Loop
grow (negsuc n) l = none
grow (pos n) l =
    if ltb (length l.received) n
    then some record l {
      received = l.received ++ replicate (n - length l.received) 0;
      start = l.total_rcvd;
      packet_len = pos n;
    }
    else none

-- what follows once the length was read
unfoldable pub measured : ℕ → ℤ → Loop → Turn
unfolding advance grow
measured bytes_rcvd packet_len l = elim (grow packet_len l) [
  | some longer ↦ again longer
  | none ↦ advance bytes_rcvd (record l { packet_len = packet_len })
]

-- what follows the call of `recv_into`
unfoldable pub turn : ℕ → Loop → Turn
unfolding advance read_packet_len measured
turn bytes_rcvd l =
    if eq_ℤ l.packet_len (pos 0) && ltb 4 l.total_rcvd
    then measured bytes_rcvd (read_packet_len l.received) l
    else advance bytes_rcvd l

pub data RecvError : Type 0 where
  socket_error out_of_fuel : RecvError

-- `recv_into` delivered these bytes; none is a broken connection.
unfoldable pub round : Loop → List ℕ → Option Turn
unfolding store turn
round l bytes = if length bytes == 0 then none else some (turn (length bytes) (store bytes l))

-- Each round that goes on has received a byte, so as many rounds as there are bytes are enough.
unfoldable pub recv_loop : ℕ → Loop → Socket → Outcome RecvError (List ℕ)
unfolding recv_into round
recv_loop zero l socket = raised out_of_fuel
recv_loop (suc fuel) l socket =
    let (bytes, socket') = recv_into (length l.received - l.start) socket in
    elim (round l bytes) [
      | none ↦ raised socket_error
      | some (done received) ↦ ok received
      | some (again l') ↦ recv_loop fuel l' socket'
    ]

unfoldable pub recv : ℕ → Socket → Outcome RecvError (List ℕ)
unfolding initial recv_loop
recv fuel socket = recv_loop fuel initial socket
