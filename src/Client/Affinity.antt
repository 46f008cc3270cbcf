-- ===== src/Client/Affinity.antt =====
-- The affinity part of `BaseClient` in pygridgain/client.py: the mapping of caches to partitions,
-- and the choice of a node for a key's hash code.
pub mod Partition
pub mod Refresh
pub mod Choice
mod Runs
use python_thin_client.Prelude.{
  ℕ, zero, suc, ◌+◌, ◌-◌, ◌*◌, ◌/◌, ◌%◌, ◌^◌, ◌≤◌, ◌<◌, Bool, true, false, ◌&&◌, ◌||◌, not, Option,
  none, some, List, [], ◌∷◌, ◌++◌, ltb, ◌==◌, if◌then◌else◌, bit_and, bit_xor,
}
use python_thin_client.Prelude.Int.{ℤ, pos, negsuc}
use python_thin_client.Prelude.Numbers.{and_mask, xor_mask, unsigned, floor_div, abs, eq_ℤ}
use python_thin_client.Prelude.Outcome.{Outcome, ok, raised}
use python_thin_client.Prelude.Dict.{Dict, lookup, insert, update, keys, int_key, nat_key}

-- A topology version: major and minor number, compared as Python compares tuples.
abbrev pub Version : Type 0
Version = ℕ × ℕ

unfoldable pub before : Version → Version → Bool
before v w = ltb v.0 w.0 || (v.0 == w.0 && ltb v.1 w.1)

-- Node identifiers (UUIDs) are numbers.
abbrev pub NodeId : Type 0
NodeId = ℕ

-- The dictionary that a cache is mapped to: empty, or as `__post_process_partitions` builds it. Both
-- optional entries are absent where the cache has no applicable affinity function.
pub data CacheMapping : Type 0 where
  unset : CacheMapping
  mapped : Bool → Option (Dict ℤ ℤ) → Option (Dict NodeId (List ℕ)) → ℕ → CacheMapping

pub record FullAffinity : Type 0 where
  pub version : Version
  pub partition_mapping : Dict ℤ CacheMapping

-- A connection, as far as the choice of a node reads it.
pub record Node : Type 0 where
  pub uuid : Option NodeId
  pub alive : Bool

-- `partition_aware` is the property: the flag of the constructor and the protocol's support for it.
pub record Client : Type 0 where
  pub partition_aware : Bool
  pub affinity_version : Version
  pub known_version : Version
  pub partition_mapping : Dict ℤ CacheMapping
  pub nodes : List Node

-- `_affinity` has two keys, the texts 'version' and 'partition_mapping': no integer is among them.
unfoldable pub in_affinity : Client → ℤ → Bool
in_affinity c cache_id = false

unfoldable pub register_cache : ℤ → Client → Client
unfolding in_affinity
register_cache cache_id c =
    if c.partition_aware && not (in_affinity c cache_id)
    then record c { partition_mapping = insert cache_id unset c.partition_mapping }
    else c

-- A falsy dictionary, `if full_mapping`, updates nothing, as `update` by an empty one does.
unfoldable pub update_affinity : FullAffinity → Client → Client
update_affinity full c = record c {
  known_version = full.version;
  partition_mapping = update c.partition_mapping full.partition_mapping;
}

unfoldable pub without_mapping : Dict ℤ CacheMapping → List ℤ
without_mapping [] = []
without_mapping ((c_id, unset) ∷ d) = c_id ∷ without_mapping d
without_mapping ((c_id, mapped a f n p) ∷ d) = without_mapping d

unfoldable pub caches_to_update_affinity : Client → List ℤ
unfolding before without_mapping
caches_to_update_affinity c =
    if before c.known_version c.affinity_version
    then keys c.partition_mapping
    else without_mapping c.partition_mapping

-- Reading a `defaultdict` at a missing key puts the default there.
unfoldable pub cache_partition_mapping : ℤ → Client → CacheMapping × Client
cache_partition_mapping cache_id c = elim (lookup cache_id c.partition_mapping) [
  | some m ↦ (m, c)
  | none ↦ (unset, record c { partition_mapping = insert cache_id unset c.partition_mapping })
]

-- The `assert` failed.
pub data AssertionError : Type 0 where
  assertion_error : AssertionError

-- The partition of a hash code; `parts` is positive where the client calls this.
unfoldable pub partition : ℤ → ℕ → Outcome AssertionError ℕ
partition hashcode parts =
    let mask = parts - 1 in
    let part =
      if bit_and parts mask == 0
      then and_mask (xor_mask hashcode (unsigned 32 hashcode / 2 ^ 16)) mask
      else abs (floor_div hashcode parts) in
    if ltb part parts then ok part else raised assertion_error

unfoldable pub elem : ℕ → List ℕ → Bool
elem x [] = false
elem x (y ∷ ys) = y == x || elem x ys

-- the first node of the mapping that has the partition
unfoldable pub owner : ℕ → Dict NodeId (List ℕ) → Option NodeId
unfolding elem
owner part [] = none
owner part ((u, p) ∷ rest) = if elem part p then some u else owner part rest

unfoldable pub has_uuid : NodeId → Node → Bool
has_uuid u n = elim n.uuid [ some v ↦ v == u | none ↦ false ]

unfoldable pub find_node : NodeId → List Node → Option Node
unfolding has_uuid
find_node u [] = none
find_node u (n ∷ ns) = if has_uuid u n then some n else find_node u ns

unfoldable pub if_alive : Option Node → Option Node
if_alive none = none
if_alive (some n) = if n.alive then some n else none

unfoldable pub primary : ℕ → Option (Dict NodeId (List ℕ)) → List Node → Option Node
unfolding owner find_node if_alive
primary part none nodes = none
primary part (some m) nodes = elim (owner part m) [
  | some u ↦ if_alive (find_node u nodes)
  | none ↦ none
]

unfoldable pub node_mapping_of : CacheMapping → Option (Dict NodeId (List ℕ))
node_mapping_of unset = none
node_mapping_of (mapped a f n p) = n

-- `None` for a node that is not known, or not alive.
unfoldable pub get_node_by_hashcode :
    ℤ → ℤ → ℕ → Client → Outcome AssertionError (Option Node × Client)
unfolding partition primary node_mapping_of cache_partition_mapping
get_node_by_hashcode cache_id hashcode parts c = elim (partition hashcode parts) [
  | raised e ↦ raised e
  | ok part ↦
      let (m, c') = cache_partition_mapping cache_id c in
      ok (primary part (node_mapping_of m) c.nodes, c')
]
