-- ===== src/Transactions.antt =====
-- pygridgain/transaction.py and pygridgain/api/tx_api.py. A context is a thread or a coroutine, which
-- sees its own value of the context variable; what a request comes to is a parameter.
pub mod Ending
mod Runs
use python_thin_client.Prelude.{
  ℕ, Bool, true, false, Option, none, some, List, [], ◌∷◌, ◌++◌, ◌==◌, if◌then◌else◌,
}
use python_thin_client.Prelude.Dict.{Dict, lookup, insert, nat_key}

-- A request returns, returns a status other than 0, or raises.
pub data Reply : Type 0 where
  succeeded status_failed connection_lost : Reply

pub data Ended : Type 0 where
  returned cache_error connection_error : Ended

-- `__CURRENT_TX` of each context, and the requests OP_TX_END that were sent: the transaction, and
-- whether it is to be committed.
pub record World : Type 0 where
  pub current_tx : Dict ℕ (Option ℕ)
  pub sent : List (ℕ × Bool)

unfoldable pub get_tx_id : ℕ → World → Option ℕ
get_tx_id context w = elim (lookup context w.current_tx) [ some tx ↦ tx | none ↦ none ]

unfoldable pub in_context : ℕ → Option ℕ → Bool
in_context tx_id none = false
in_context tx_id (some current) = current == tx_id

-- `status_to_exception`
unfoldable pub ended : Reply → Ended
ended succeeded = returned
ended status_failed = cache_error
ended connection_lost = connection_error

-- `tx_end` clears the variable whatever the request comes to.
unfoldable pub tx_end : ℕ → ℕ → Bool → Reply → World → Ended × World
unfolding get_tx_id in_context ended
tx_end context tx_id committed reply w =
    if in_context tx_id (get_tx_id context w)
    then (
      ended reply,
      record {
        current_tx = insert context none w.current_tx;
        sent = w.sent ++ ((tx_id, committed) ∷ []);
      },
    )
    else (cache_error, w)

pub record Transaction : Type 0 where
  pub tx_id : ℕ
  pub is_closed : Bool

-- `tx_start`, where the server gave the identifier
unfoldable pub start : ℕ → ℕ → World → Transaction × World
start context tx_id w = (
  record { tx_id = tx_id; is_closed = false },
  record w { current_tx = insert context (some tx_id) w.current_tx },
)

-- `__end_tx`, of a transaction that is marked as closed first
unfoldable pub finish : Bool → ℕ → Reply → Transaction → World → Ended × (Transaction × World)
unfolding tx_end
finish committed context reply tx w =
    if tx.is_closed
    then (returned, (tx, w))
    else (let (result, w') = tx_end context tx.tx_id committed reply w in
        (result, (record tx { is_closed = true }, w')))

unfoldable pub commit : ℕ → Reply → Transaction → World → Ended × (Transaction × World)
unfolding finish
commit context reply tx w = finish true context reply tx w

unfoldable pub close : ℕ → Reply → Transaction → World → Ended × (Transaction × World)
unfolding finish
close context reply tx w = finish false context reply tx w

unfoldable pub rollback : ℕ → Reply → Transaction → World → Ended × (Transaction × World)
unfolding close
rollback context reply tx w = close context reply tx w

-- the calls that a program can make, `__exit__` among them
pub data Call : Type 0 where
  commits rolls_back closes exits : Call

unfoldable pub call : Call → ℕ → Reply → Transaction → World → Ended × (Transaction × World)
unfolding commit rollback close
call commits context reply tx w = commit context reply tx w
call rolls_back context reply tx w = rollback context reply tx w
call closes context reply tx w = close context reply tx w
call exits context reply tx w = close context reply tx w
