-- ===== src/Client/Nodes.antt =====
-- The choice of a connection without an affinity mapping: `_connect`, `random_node` and
-- `_get_random_node` of pygridgain/client.py. What connecting a node comes to is a parameter.
pub mod Rotation
mod Runs
use python_thin_client.Prelude.{
  ℕ, zero, suc, ◌+◌, ◌-◌, ◌<◌, Bool, true, false, ◌&&◌, not, Option, none, some, List, [], ◌∷◌,
  ◌++◌, ltb, leb, ◌==◌, if◌then◌else◌, length, get_elem?, set,
}
use python_thin_client.Prelude.Outcome.{Outcome, ok, raised, ◌>>=◌}

-- `connect` of a node returns, raises one of `connection_errors`, or raises another exception.
pub data Attempt : Type 0 where
  connected refused failed : Attempt

pub data NodeError : Type 0 where
  reconnect_error other_error index_error : NodeError

-- A node is known by whether it is alive.
pub record Pool : Type 0 where
  pub nodes : List Bool
  pub current : ℕ

-- range(start, start + count)
unfoldable pub range : ℕ → ℕ → List ℕ
range start zero = []
range start (suc count) = start ∷ range (suc start) count

-- the next index, from the start again after the last
unfoldable pub advance : Pool → ℕ
advance pool = if leb (length pool.nodes) (pool.current + 1) then 0 else pool.current + 1

-- chain(range(current, num_nodes), range(current))
unfoldable pub rotation : ℕ → ℕ → List ℕ
unfolding range
rotation current num_nodes = range current (num_nodes - current) ++ range 0 current

unfoldable pub alive_nodes : ℕ → List Bool → List ℕ
alive_nodes i [] = []
alive_nodes i (alive ∷ ns) = let rest = alive_nodes (suc i) ns in if alive then i ∷ rest else rest

unfoldable pub give : Pool → Outcome NodeError ℕ → Outcome NodeError (ℕ × Pool)
give pool (ok n) = ok (n, pool)
give pool (raised e) = raised e

module _ (attempt : ℕ → Attempt) where
  -- the loop over the node indexes to try to connect to; a node that connects is alive
  unfoldable pub try_nodes : List ℕ → Pool → Outcome NodeError (ℕ × Pool)
  try_nodes [] pool = raised reconnect_error
  try_nodes (i ∷ is) pool = elim (attempt i) [
    | connected ↦ ok (i, record pool { nodes = set pool.nodes i true })
    | refused ↦ try_nodes is pool
    | failed ↦ raised other_error
  ]

  -- Closing the node that is not alive leaves it not alive.
  unfoldable pub fail_over : Pool → Outcome NodeError (ℕ × Pool)
  unfolding try_nodes advance rotation
  fail_over pool =
      let next = advance pool in
      try_nodes (rotation next (length pool.nodes)) (record pool { current = next })

  -- `random_node` of a client that is not partition aware
  unfoldable pub current_node : Pool → Outcome NodeError (ℕ × Pool)
  unfolding fail_over
  current_node pool = elim (get_elem? pool.nodes pool.current) [
    | none ↦ raised index_error
    | some true ↦ ok (pool.current, pool)
    | some false ↦ fail_over pool
  ]

  -- `reconnect` of a node: nothing for one that is alive, and connection errors are silenced
  unfoldable pub reconnect : ℕ → Bool → Outcome NodeError Bool
  reconnect i true = ok true
  reconnect i false = elim (attempt i) [
    | connected ↦ ok true
    | refused ↦ ok false
    | failed ↦ raised other_error
  ]

  unfoldable pub reconnect_all : ℕ → List Bool → Outcome NodeError (List Bool)
  unfolding reconnect
  reconnect_all i [] = ok []
  reconnect_all i (alive ∷ ns) = do
    alive' ← reconnect i alive
    ns' ← reconnect_all (suc i) ns
    ok (alive' ∷ ns')

  -- `random.choice` of a list that is not empty
  module _ (choice : ℕ → List ℕ → ℕ) where
    unfoldable pub choose : List ℕ → Outcome NodeError ℕ
    choose [] = raised reconnect_error
    choose (n ∷ ns) = ok (choice n ns)

    -- the call with `reconnect=False`, after the nodes were reconnected
    unfoldable pub second_try : Outcome NodeError (List Bool) → Pool → Outcome NodeError (ℕ × Pool)
    unfolding choose alive_nodes give
    second_try (ok nodes) pool = give (record pool { nodes = nodes }) (choose (alive_nodes 0 nodes))
    second_try (raised e) pool = raised e

    -- `_get_random_node`
    unfoldable pub get_random_node : Pool → Outcome NodeError (ℕ × Pool)
    unfolding choose alive_nodes reconnect_all second_try
    get_random_node pool = elim (choose (alive_nodes 0 pool.nodes)) [
      | ok n ↦ ok (n, pool)
      | raised _ ↦ second_try (reconnect_all 0 pool.nodes) pool
    ]
