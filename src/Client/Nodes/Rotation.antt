-- ===== src/Client/Nodes/Rotation.antt =====
-- What `random_node` returns, on both settings of partition awareness.
use python_thin_client.Prelude.{
  ℕ, zero, suc, ◌+◌, ◌-◌, ◌≤◌, ◌<◌, ◌≡◌, ◌≢◌, inl, inr, refl, ap, sym, ◌∙◌, Bool, true, false, ◌||◌,
  ◌&&◌, some, List, [], ◌∷◌, ◌++◌, ltb, leb, ◌==◌, arith, Bool-cases, ==_iff, lt→ltb, ltb→lt,
  length, get_elem?, set,
}
use python_thin_client.Prelude.Outcome.{Outcome, ok, raised}
use mathlib.Core.Bool.{false≢true}
use python_thin_client.Client.Nodes.{
  Attempt, connected, refused, failed, NodeError, reconnect_error, Pool, range, try_nodes, advance,
  rotation, current_node, alive_nodes, reconnect_all, choose, give, second_try, get_random_node,
}

abbrev pub elem : ℕ → List ℕ → Bool
elem x [] = false
elem x (y ∷ ys) = y == x || elem x ys

elem-append : (x : ℕ) (xs ys : List ℕ) → elem x (xs ++ ys) ≡ (elem x xs || elem x ys)
elem-append x [] ys = refl
elem-append x (y ∷ xs) ys = ground (arith, elem-append x xs ys)

elem-range :
    (x start count : ℕ) → elem x (range start count) ≡ (leb start x && ltb x (start + count))
unfolding elem range
elem-range x start zero = ground arith
elem-range x start (suc count) = ground (arith, elem-range x (suc start) count)

get_elem?-set_self :
    (xs : List Bool) (i : ℕ) (v : Bool) → i < length xs → get_elem? (set xs i v) i ≡ some v
get_elem?-set_self [] i v h = absurd (omega arith)
get_elem?-set_self (x ∷ xs) zero v h = refl
get_elem?-set_self (x ∷ xs) (suc i) v h = get_elem?-set_self xs i v (omega arith)

module _ (attempt : ℕ → Attempt) (plain : (i : ℕ) → attempt i ≢ failed) where
  -- What a walk over the nodes `is` from the pool comes to.
  abbrev Found : List ℕ → Pool → Type 0
  Found is pool =
      (j : ℕ) × (try_nodes attempt is pool ≡ ok (j, record pool { nodes = set pool.nodes j true }))
      × (elem j is ≡ true)
      × (attempt j ≡ connected)

  try_step :
      (n : ℕ) (is : List ℕ) (pool : Pool) (i : ℕ) (a : Attempt)
      → attempt n ≡ a
      → elem i (n ∷ is) ≡ true
      → attempt i ≡ connected
      → (elem i is ≡ true → Found is pool)
      → Found (n ∷ is) pool
  unfolding try_nodes
  try_step n is pool i connected e found up rest = (n, ground arith, ground arith, e)
  try_step n is pool i failed e found up rest = absurd (plain n e)
  try_step n is pool i refused e found up rest = elim (Bool-cases (n == i)) [
    | inl same ↦ cc (e, up, ap attempt ((==_iff n i).0 same))
    | inr other ↦
        let (j, walk, inside, good) = rest (rw other at found) in
        (j, rw (e, try_nodes) walk, ground (arith, inside), good)
  ]

  -- Where some node of the list connects, one that connects is returned, and is alive then.
  try_nodes_lem :
      (is : List ℕ) (pool : Pool) (i : ℕ) → elem i is ≡ true → attempt i ≡ connected → Found is pool
  try_nodes_lem [] pool i found up = absurd (false≢true found)
  try_nodes_lem (n ∷ is) pool i found up =
      try_step n is pool i (attempt n) refl found up (λ f. try_nodes_lem is pool i f up)

-- The rotation visits every index once round.
elem-rotation : (i current n : ℕ) → current ≤ n → elem i (rotation current n) ≡ ltb i n
unfolding rotation
elem-rotation i current n h = rw elem-append (rw elem-range (rw elem-range (ground arith)))

advance-le : (pool : Pool) → advance pool ≤ length pool.nodes
unfolding advance
advance-le pool = ground arith

module _ (attempt : ℕ → Attempt) (plain : (i : ℕ) → attempt i ≢ failed) (pool : Pool) where
  -- Where the current node is not alive and connecting raises connection errors only: if some node
  -- connects, `random_node` returns the index of a node that connects and is alive afterwards.
  pub current_node_lem :
      (i : ℕ)
      → get_elem? pool.nodes pool.current ≡ some false
      → i < length pool.nodes
      → attempt i ≡ connected
      → (j : ℕ) × (pool' : Pool) × (current_node attempt pool ≡ ok (j, pool'))
        × (get_elem? pool'.nodes j ≡ some true)
        × (attempt j ≡ connected)
  unfolding current_node
  current_node_lem i dead inside up =
      let n = length pool.nodes in
      let next = advance pool in
      let bound = advance-le pool in
      let moved : Pool = record pool { current = next } in
      let found : elem i (rotation next n) ≡ true =
        elem-rotation i next n bound ∙ lt→ltb i n inside in
      let (j, walk, visited, good) =
        try_nodes_lem attempt plain (rotation next n) moved i found up in
      let j_inside = ltb→lt j n (sym (elem-rotation j next n bound) ∙ visited) in
      (
        j,
        record moved { nodes = set pool.nodes j true },
        rw (dead, current_node) walk,
        get_elem?-set_self pool.nodes j true j_inside,
        good,
      )

  -- Where the current node is not alive and no node connects, `random_node` raises `ReconnectError`.
  pub current_node-reconnect_error :
      ((i : ℕ) → attempt i ≡ refused)
      → get_elem? pool.nodes pool.current ≡ some false
      → current_node attempt pool ≡ raised reconnect_error
  unfolding current_node
  current_node-reconnect_error down dead =
      rw (dead, current_node) (all_refused (rotation (advance pool) (length pool.nodes)) _)
    where
      all_refused :
          (is : List ℕ) (moved : Pool) → try_nodes attempt is moved ≡ raised reconnect_error
      all_refused [] moved = refl
      all_refused (n ∷ is) moved = rw (down n, try_nodes) (all_refused is moved)

ok_pair :
    {m n : ℕ} {p q : Pool}
    → ◌≡◌ {A = Outcome NodeError (ℕ × Pool)} (ok (m, p)) (ok (n, q))
    → (m ≡ n) × (p ≡ q)
ok_pair {m} {n} {p} {q} h = (
  ap (λ (t : Outcome NodeError (ℕ × Pool)). elim t [ ok r ↦ r.0 | raised e ↦ m ]) h,
  ap (λ (t : Outcome NodeError (ℕ × Pool)). elim t [ ok r ↦ r.1 | raised e ↦ p ]) h,
)

shift :
    (a : Bool) (ns : List Bool) (start j : ℕ)
    → suc start ≤ j
    → get_elem? (a ∷ ns) (j - start) ≡ get_elem? ns (j - suc start)
shift a ns start j h =
    let later : j - start ≡ suc (j - suc start) = omega arith in ap (get_elem? (a ∷ ns)) later

-- `random.choice` returns an element of the list that it is given.
module _ (attempt : ℕ → Attempt) (choice : ℕ → List ℕ → ℕ)
    (chosen : (n : ℕ) (ns : List ℕ) → elem (choice n ns) (n ∷ ns) ≡ true) where
  alive_nodes_lem :
      (ns : List Bool) (start j : ℕ)
      → elem j (alive_nodes start ns) ≡ true
      → (start ≤ j) × (get_elem? ns (j - start) ≡ some true)
  unfolding alive_nodes
  alive_nodes_lem [] start j h = cc
  alive_nodes_lem (true ∷ ns) start j h = elim (Bool-cases (start == j)) [
    | inl here ↦ (ground arith, at_start here)
    | inr later ↦
        let (above, live) = alive_nodes_lem ns (suc start) j (rw later at h) in
        (omega arith, shift true ns start j above ∙ live)
  ]
    where
      at_start : (start == j) ≡ true → get_elem? (true ∷ ns) (j - start) ≡ some true
      at_start here =
          let none_left : j - start ≡ 0 = ground arith in ap (get_elem? (true ∷ ns)) none_left
  alive_nodes_lem (false ∷ ns) start j h =
      let (above, live) = alive_nodes_lem ns (suc start) j h in
      (omega arith, shift false ns start j above ∙ live)

  choose-elem : (l : List ℕ) (j : ℕ) → choose attempt choice l ≡ ok j → elem j l ≡ true
  unfolding choose
  choose-elem [] j h = cc
  choose-elem (n ∷ ns) j h = ground (arith, chosen n ns)

  choose_alive :
      (ns : List Bool) (j : ℕ)
      → choose attempt choice (alive_nodes 0 ns) ≡ ok j
      → get_elem? ns j ≡ some true
  choose_alive ns j h =
      let (_, live) = alive_nodes_lem ns 0 j (choose-elem (alive_nodes 0 ns) j h) in
      ap (get_elem? ns) (omega arith) ∙ live

  -- The node that a partition-aware client picks at random is alive, whether it had to reconnect
  -- nodes or not.
  pub get_random_node_alive :
      (pool : Pool) {j : ℕ} {pool' : Pool}
      → get_random_node attempt choice pool ≡ ok (j, pool')
      → get_elem? pool'.nodes j ≡ some true
  unfolding get_random_node second_try give
  get_random_node_alive pool {j} {pool'} h =
      first (choose attempt choice (alive_nodes 0 pool.nodes)) refl
    where
      picked :
          (c : Outcome NodeError ℕ) (q : Pool)
          → choose attempt choice (alive_nodes 0 q.nodes) ≡ c
          → give q c ≡ ok (j, pool')
          → get_elem? pool'.nodes j ≡ some true
      picked (ok n) q e g =
          let (same, there) = ok_pair g in
          ap (λ (t : Pool). get_elem? t.nodes j) (sym there)
          ∙ choose_alive q.nodes j (e ∙ ap ok same)
      picked (raised x) q e g = cc

      second :
          (r : Outcome NodeError (List Bool))
          → second_try attempt choice r pool ≡ ok (j, pool')
          → get_elem? pool'.nodes j ≡ some true
      second (ok ns) g = picked _ (record pool { nodes = ns }) refl g
      second (raised x) g = cc

      first :
          (r : Outcome NodeError ℕ)
          → choose attempt choice (alive_nodes 0 pool.nodes) ≡ r
          → get_elem? pool'.nodes j ≡ some true
      first (ok n) e = picked (ok n) pool e (rw (e, get_random_node) at h)
      first (raised x) e =
          second (reconnect_all attempt 0 pool.nodes) (rw (e, get_random_node) at h)
