-- ===== src/Client/Nodes/Runs.antt =====
-- Runs of the choice of a node.
use python_thin_client.Prelude.{
  ℕ, zero, suc, ◌≡◌, ◌≢◌, refl, true, false, some, List, [], ◌∷◌, get_elem?, arith,
}
use python_thin_client.Prelude.Outcome.{ok}
use python_thin_client.Client.Nodes.{Attempt, connected, refused, failed, Pool, current_node}
use python_thin_client.Client.Nodes.Rotation.{current_node_lem, elem}

-- Only the last of three nodes can be connected.
abbrev last_up : ℕ → Attempt
last_up (suc (suc zero)) = connected
last_up n = refused

abbrev all_down : ℕ → Attempt
all_down n = refused

abbrev first : ℕ → List ℕ → ℕ
first n ns = n

abbrev pool : Pool
pool = record { nodes = false ∷ false ∷ false ∷ []; current = 0 }

last_up_plain : (i : ℕ) → last_up i ≢ failed
last_up_plain zero h = cc
last_up_plain (suc zero) h = cc
last_up_plain (suc (suc zero)) h = cc
last_up_plain (suc (suc (suc n))) h = cc

all_down_plain : (i : ℕ) → all_down i ≢ failed
all_down_plain i h = cc

first_chosen : (n : ℕ) (ns : List ℕ) → elem (first n ns) (n ∷ ns) ≡ true
first_chosen n ns = ground arith

current_node_example :
    (j : ℕ) × (pool' : Pool) × (current_node last_up pool ≡ ok (j, pool'))
    × (get_elem? pool'.nodes j ≡ some true)
    × (last_up j ≡ connected)
current_node_example = current_node_lem last_up last_up_plain pool 2 refl (omega arith) refl
