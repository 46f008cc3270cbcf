-- ===== src/Client/Affinity/Choice.antt =====
-- The node that is chosen for a hash code.
use python_thin_client.Prelude.{
  ℕ, ◌≡◌, refl, ap, sym, ◌∙◌, Bool, true, false, Option, none, some, List, [], ◌∷◌, arith,
  Bool-cases, inl, inr, if◌then◌else◌,
}
use python_thin_client.Prelude.Int.{ℤ}
use python_thin_client.Prelude.Outcome.{Outcome, ok, raised}
use python_thin_client.Prelude.Dict.{Dict}
use python_thin_client.Client.Affinity.{
  NodeId, Node, Client, owner, has_uuid, find_node, if_alive, primary, partition, node_mapping_of,
  cache_partition_mapping, get_node_by_hashcode, AssertionError,
}

has_uuid_lem : (u : NodeId) (n : Node) → has_uuid u n ≡ true → n.uuid ≡ some u
unfolding has_uuid
has_uuid_lem u n h = ground arith

-- A list of nodes finds a node of that identifier, or none.
find_node-uuid :
    (u : NodeId) (ns : List Node) {n : Node} → find_node u ns ≡ some n → n.uuid ≡ some u
unfolding find_node
find_node-uuid u [] h = cc
find_node-uuid u (m ∷ ns) {n} h = elim (Bool-cases (has_uuid u m)) [
  | inl here ↦
      let found : ◌≡◌ {A = Option Node} (some m) (some n) = rw here at h in
      ap uuid_of (sym found) ∙ has_uuid_lem u m here
  | inr later ↦ find_node-uuid u ns (rw later at h)
]
  where
    uuid_of : Option Node → Option NodeId
    uuid_of none = none
    uuid_of (some k) = k.uuid

if_alive_lem : (o : Option Node) {n : Node} → if_alive o ≡ some n → (o ≡ some n) × (n.alive ≡ true)
unfolding if_alive
if_alive_lem none h = cc
if_alive_lem (some m) {n} h = go m.alive refl h
  where
    alive_of : Option Node → Bool
    alive_of none = true
    alive_of (some k) = k.alive

    go :
        (b : Bool)
        → m.alive ≡ b
        → ◌≡◌ {A = Option Node} (if b then some m else none) (some n)
        → ◌≡◌ {A = Option Node} (some m) (some n) × (n.alive ≡ true)
    go true up found = (found, ap alive_of (sym found) ∙ up)
    go false down found = cc

-- What the choice of a node rests on.
abbrev pub Chosen : ℕ → Option (Dict NodeId (List ℕ)) → Node → Type 0
Chosen part mapping n =
    (m : Dict NodeId (List ℕ)) × (u : NodeId) × (mapping ≡ some m)
    × (owner part m ≡ some u)
    × (n.uuid ≡ some u)
    × (n.alive ≡ true)

primary_lem :
    (part : ℕ) (mapping : Option (Dict NodeId (List ℕ))) (ns : List Node) {n : Node}
    → primary part mapping ns ≡ some n
    → Chosen part mapping n
unfolding primary
primary_lem part none ns h = cc
primary_lem part (some m) ns {n} h = by_owner (owner part m) refl
  where
    by_owner : (o : Option NodeId) → owner part m ≡ o → Chosen part (some m) n
    by_owner none e = let bad : ◌≡◌ {A = Option Node} none (some n) = rw (e, primary) at h in cc
    by_owner (some u) e =
        let (found, up) = if_alive_lem (find_node u ns) (rw (e, primary) at h) in
        (m, u, refl, e, find_node-uuid u ns found, up)

-- A node that is returned is alive, and it is the one that the mapping of the cache gives for the
-- partition of the hash code.
pub get_node_by_hashcode_lem :
    (cache_id hashcode : ℤ) (parts : ℕ) (c : Client) {n : Node} {c' : Client}
    → get_node_by_hashcode cache_id hashcode parts c ≡ ok (some n, c')
    → (part : ℕ) × (partition hashcode parts ≡ ok part)
      × Chosen part (node_mapping_of (cache_partition_mapping cache_id c).0) n
unfolding get_node_by_hashcode
get_node_by_hashcode_lem cache_id hashcode parts c {n} {c'} h =
    by_part (partition hashcode parts) refl
  where
    node_of : Outcome AssertionError (Option Node × Client) → Option Node
    node_of (raised e) = none
    node_of (ok r) = r.0

    by_part :
        (r : Outcome AssertionError ℕ)
        → partition hashcode parts ≡ r
        → (part : ℕ) × (partition hashcode parts ≡ ok part)
          × Chosen part (node_mapping_of (cache_partition_mapping cache_id c).0) n
    by_part (raised e) same =
        let bad : ◌≡◌ {A = Outcome AssertionError (Option Node × Client)} (raised e)
            (ok (some n, c')) =
          rw (same, get_node_by_hashcode) at h in
        cc
    by_part (ok part) same =
        let got = ap node_of (rw (same, get_node_by_hashcode) at h) in
        (part, same, primary_lem part _ c.nodes got)
