-- ===== src/Connection/Aio.antt =====
-- pygridgain/connection/aio_connection.py: `BaseProtocol`, which cuts what the transport delivers into
-- packets, and the requests of an `AioConnection` that wait for their answers. A future is a number,
-- under which the connection keeps the identifier of the request and what has become of it.
pub mod Packets
pub mod Pending
pub mod Ending
mod Runs
use python_thin_client.Prelude.{
  ℕ, zero, suc, ◌+◌, ◌-◌, ◌*◌, Bool, true, false, not, ◌&&◌, ◌||◌, Option, none, some, List, [],
  ◌∷◌, ◌++◌, ltb, leb, ◌==◌, if◌then◌else◌, length, take, drop,
}
use python_thin_client.Prelude.Int.{ℤ, pos, negsuc}
use python_thin_client.Prelude.Numbers.{to_signed}
use python_thin_client.Prelude.Dict.{Dict, lookup, insert, delete, int_key}
use python_thin_client.Datatypes.Wire.{from_bytes}
use python_thin_client.Connection.Receive.{read_packet_len}

-- buffer[0:n] and buffer[n:len(buffer)]: a negative index counts from the end
unfoldable pub slice_to : ℤ → List ℕ → List ℕ
slice_to (pos n) buffer = take n buffer
slice_to (negsuc n) buffer = take (length buffer - suc n) buffer

unfoldable pub slice_from : ℤ → List ℕ → List ℕ
slice_from (pos n) buffer = drop n buffer
slice_from (negsuc n) buffer = drop (length buffer - suc n) buffer

-- response_len + 4 <= len(buffer)
unfoldable pub fits_in : ℤ → ℕ → Bool
fits_in (pos n) size = leb n size
fits_in (negsuc n) size = true

unfoldable pub has_full_response : List ℕ → Bool
unfolding fits_in read_packet_len
has_full_response buffer = ltb 4 (length buffer) && fits_in (read_packet_len buffer) (length buffer)

-- How a call of `data_received` ends: it returns, an exception leaves it, or it is still in its loop.
-- The buffer and the connection are as they are then.
pub data Ended {ℓ} (S : Type ℓ) : Type ℓ where
  returned : List ℕ → S → Ended S
  broken : List ℕ → S → Ended S
  looping : List ℕ → S → Ended S

-- What is done with a packet: an exception leaves the connection as it is.
pub data Handled {ℓ} (S : Type ℓ) : Type ℓ where
  handled : S → Handled S
  failed : S → Handled S

module _ {ℓ} {S : Type ℓ} (process : List ℕ → S → Handled S) where
  -- the rest of the loop's body and the next rounds, once a packet was processed
  unfoldable pub cut_off : (List ℕ → S → Ended S) → List ℕ → Handled S → Ended S
  unfolding slice_from read_packet_len
  cut_off next buffer (handled s) = next (slice_from (read_packet_len buffer) buffer) s
  cut_off next buffer (failed s) = broken buffer s

  unfoldable pub turn : (List ℕ → S → Ended S) → Bool → List ℕ → S → Ended S
  unfolding cut_off slice_to read_packet_len
  turn next false buffer s = returned buffer s
  turn next true buffer s =
      cut_off next buffer (process (slice_to (read_packet_len buffer) buffer) s)

  -- the loop, with fuel for its rounds
  unfoldable pub loop : ℕ → List ℕ → S → Ended S
  unfolding turn has_full_response
  loop zero buffer s = looping buffer s
  loop (suc fuel) buffer s = turn (loop fuel) (has_full_response buffer) buffer s

  -- A round takes five bytes at least, where lengths are not negative.
  unfoldable pub data_received : List ℕ → List ℕ → S → Ended S
  unfolding loop
  data_received arrived buffer s = loop (suc (length (buffer ++ arrived))) (buffer ++ arrived) s

pub data State : Type 0 where
  waiting cancelled excepted : State
  result : List ℕ → State

-- A future, with the identifier of the request that it belongs to.
pub record Future : Type 0 where
  pub query_id : ℤ
  pub state : State

pub record AioConnection : Type 0 where
  pub failed : Bool
  pub closed : Bool
  pub pending_reqs : Dict ℤ ℕ
  pub created : ℕ
  pub future : ℕ → Future

-- a connection that has sent nothing yet
abbrev pub connected : AioConnection
connected = record {
  failed = false;
  closed = false;
  pending_reqs = [];
  created = 0;
  future = λ _. record { query_id = pos 0; state = excepted };
}

unfoldable pub put : ℕ → State → (ℕ → Future) → ℕ → Future
put i state future j = if i == j then record (future j) { state = state } else future j

unfoldable pub is_waiting : State → Bool
is_waiting waiting = true
is_waiting cancelled = false
is_waiting excepted = false
is_waiting (result packet) = false

-- int.from_bytes(data[4:12], signed=True)
unfoldable pub request_id : List ℕ → ℤ
request_id packet =
    let octets = take 8 (drop 4 packet) in to_signed (8 * length octets) (from_bytes octets)

-- `set_result`, which raises if the future is done, and `del`
unfoldable pub answer : List ℕ → ℤ → Option ℕ → AioConnection → Handled AioConnection
unfolding put is_waiting
answer packet req_id none c = handled c
answer packet req_id (some i) c =
    if is_waiting (c.future i).state
    then handled (record c {
      future = put i (result packet) c.future;
      pending_reqs = delete req_id c.pending_reqs;
    })
    else failed c

unfoldable pub process_message : List ℕ → AioConnection → Handled AioConnection
unfolding answer request_id
process_message packet c =
    answer packet (request_id packet) (lookup (request_id packet) c.pending_reqs) c

-- `request` and `_send`, for a connection that is alive; what is written to the transport is left out
unfoldable pub send : ℤ → AioConnection → AioConnection
send query_id c = record c {
  created = suc c.created;
  future =
      λ j. if c.created == j then record { query_id = query_id; state = waiting } else c.future j;
  pending_reqs = insert query_id c.created c.pending_reqs;
}

-- `request` raises for a connection that is not alive.
unfoldable pub request : ℤ → AioConnection → Option AioConnection
unfolding send
request query_id c = if c.failed || c.closed then none else some (send query_id c)

-- A caller gives up on a request, as `asyncio.wait_for` does at its timeout.
unfoldable pub cancel : ℕ → AioConnection → AioConnection
unfolding put is_waiting
cancel i c =
    if is_waiting (c.future i).state then record c { future = put i cancelled c.future } else c

-- `set_exception` on one future after the other, until one of them raises
unfoldable pub except_all : Dict ℤ ℕ → (ℕ → Future) → Handled (ℕ → Future)
unfolding put is_waiting
except_all [] future = handled future
except_all ((q, i) ∷ reqs) future =
    if is_waiting (future i).state then except_all reqs (put i excepted future) else failed future

-- The part of `process_connection_lost` that ends the requests.
unfoldable pub clear : AioConnection → Handled (ℕ → Future) → Handled AioConnection
clear c (handled f) = handled (record c { failed = true; future = f; pending_reqs = [] })
clear c (failed f) = failed (record c { failed = true; future = f })

unfoldable pub process_connection_lost : AioConnection → Handled AioConnection
unfolding except_all clear
process_connection_lost c = clear c (except_all c.pending_reqs c.future)
