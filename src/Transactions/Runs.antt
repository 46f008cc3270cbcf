-- ===== src/Transactions/Runs.antt =====
-- Runs of transactions.
use python_thin_client.Prelude.{◌≡◌, refl, true, false, none, some, [], ◌∷◌}
use python_thin_client.Prelude.Dict.{insert, lookup, nat_key}
use python_thin_client.Transactions.{
  succeeded, connection_lost, returned, cache_error, World, start, closes, commits, exits, ended,
  get_tx_id,
}
use python_thin_client.Transactions.Ending.{run, run_once, run_superseded}

abbrev world : World
world = record { current_tx = (1, some 42) ∷ []; sent = [] }

-- A lost connection ends the transaction on the client all the same.
run_once_example :
    run
      ((commits, 1, connection_lost) ∷ (closes, 2, succeeded) ∷ (exits, 1, succeeded) ∷ [])
      (record { tx_id = 42; is_closed = false })
      world
    ≡ (
      ended connection_lost ∷ returned ∷ returned ∷ [],
      record { current_tx = insert 1 none world.current_tx; sent = (42, true) ∷ [] },
    )
unfolding get_tx_id lookup
run_once_example =
    run_once commits 1 connection_lost ((closes, 2, succeeded) ∷ (exits, 1, succeeded) ∷ []) 42
      world refl

run_superseded_example :
    run
      ((commits, 1, succeeded) ∷ (closes, 1, succeeded) ∷ [])
      (start 1 50 world).0
      (start 1 51 (start 1 50 world).1).1
    ≡ (cache_error ∷ returned ∷ [], (start 1 51 (start 1 50 world).1).1)
run_superseded_example =
    run_superseded commits 1 succeeded ((closes, 1, succeeded) ∷ []) 50 51 world refl
