-- ===== src/Api/Affinity.antt =====
-- pygridgain/api/affinity.py: how the answer with the partitions of caches is tidied up, and
-- `_get_affinity` of pygridgain/client.py, which asks for it again while the server fails.
pub mod Mapping
pub mod Refreshes
mod Runs
use python_thin_client.Prelude.{
  ℕ, zero, suc, ◌+◌, ◌-◌, Bool, true, false, Option, none, some, List, [], ◌∷◌, ◌++◌, if◌then◌else◌,
  length,
}
use python_thin_client.Prelude.Int.{ℤ, pos, negsuc}
use python_thin_client.Prelude.Outcome.{Outcome, ok, raised, ◌>>=◌}
use python_thin_client.Prelude.Dict.{Dict, insert, update, int_key, nat_key}
use python_thin_client.Utils.{ApiResult, status_to_exception}
use python_thin_client.Client.Affinity.{
  NodeId, Version, CacheMapping, mapped, FullAffinity, Client, elem, update_affinity,
  caches_to_update_affinity,
}

-- `node_mapping`, of one node
pub record NodePartitions : Type 0 where
  pub node_uuid : NodeId
  pub node_partitions : List ℕ

-- `cache_mapping`, of one cache: the fields by which a key of a type is distributed
pub record CacheInfo : Type 0 where
  pub cache_id : ℤ
  pub cache_config : List (ℤ × ℤ)

-- The two branches of the Conditional fields of `partition_mapping`.
pub data PartitionMap : Type 0 where
  applicable : List CacheInfo → List NodePartitions → PartitionMap
  inapplicable : List ℤ → PartitionMap

-- The fields of `response_config`.
pub record Partitions : Type 0 where
  pub version_major : ℕ
  pub version_minor : ℕ
  pub partition_mapping : List PartitionMap

-- `set(...)` of partitions: the same ones, each once
unfoldable pub set_of : List ℕ → List ℕ
unfolding elem
set_of [] = []
set_of (p ∷ ps) = let rest = set_of ps in if elem p rest then rest else p ∷ rest

-- The pairs of the dictionary comprehension on the nodes.
unfoldable pub node_pairs : List NodePartitions → Dict NodeId (List ℕ)
unfolding set_of
node_pairs [] = []
node_pairs (n ∷ ns) = (n.node_uuid, set_of n.node_partitions) ∷ node_pairs ns

-- A dictionary comprehension puts its pairs in one after the other.
unfoldable pub node_mapping : List NodePartitions → Dict NodeId (List ℕ)
unfolding node_pairs
node_mapping ns = update [] (node_pairs ns)

-- sum(len(p) for p in node_mapping.values())
unfoldable pub count_partitions : Dict NodeId (List ℕ) → ℕ
count_partitions [] = 0
count_partitions ((u, ps) ∷ d) = length ps + count_partitions d

unfoldable pub applicable_mapping : Dict NodeId (List ℕ) → CacheInfo → CacheMapping
unfolding count_partitions
applicable_mapping nodes info =
    mapped true (some (update [] info.cache_config)) (some nodes) (count_partitions nodes)

-- the inner loop, on the caches of a partition map
unfoldable pub add_applicable :
    Dict NodeId (List ℕ) → List CacheInfo → Dict ℤ CacheMapping → Dict ℤ CacheMapping
unfolding applicable_mapping
add_applicable nodes [] d = d
add_applicable nodes (info ∷ infos) d =
    add_applicable nodes infos (insert info.cache_id (applicable_mapping nodes info) d)

unfoldable pub add_inapplicable : List ℤ → Dict ℤ CacheMapping → Dict ℤ CacheMapping
add_inapplicable [] d = d
add_inapplicable (cache_id ∷ cache_ids) d =
    add_inapplicable cache_ids (insert cache_id (mapped false none none 0) d)

-- the outer loop, on the partition maps
unfoldable pub add_maps : List PartitionMap → Dict ℤ CacheMapping → Dict ℤ CacheMapping
unfolding node_mapping add_applicable add_inapplicable
add_maps [] d = d
add_maps (applicable infos ns ∷ maps) d = add_maps maps (add_applicable (node_mapping ns) infos d)
add_maps (inapplicable cache_ids ∷ maps) d = add_maps maps (add_inapplicable cache_ids d)

unfoldable pub tidy : Partitions → FullAffinity
unfolding add_maps
tidy p = record {
  version = (p.version_major, p.version_minor);
  partition_mapping = add_maps p.partition_mapping [];
}

unfoldable pub succeeded : ℤ → Bool
succeeded status = elim status [ pos zero ↦ true | _ ↦ false ]

unfoldable pub tidied : Option Partitions → Option FullAffinity
unfolding tidy
tidied none = none
tidied (some p) = some (tidy p)

-- `__post_process_partitions`; the value of a result that failed is None.
unfoldable pub post_process_partitions :
    {M : Type 0} → ApiResult M (Option Partitions) → ApiResult M (Option FullAffinity)
unfolding tidied succeeded
post_process_partitions r = record {
  status = r.status;
  message = r.message;
  value = if succeeded r.status then tidied r.value else none;
}

abbrev pub affinity_retries : ℕ
affinity_retries = 32

-- One of `connection_errors`, or the exception that `status_to_exception` makes of a message.
pub data AffinityError (M : Type 0) : Type 0 where
  connection_error : AffinityError M
  cache_error : M → AffinityError M

unfoldable pub as_exception :
    {M : Type 0} → Outcome M (Option FullAffinity) → Outcome (AffinityError M) (Option FullAffinity)
as_exception (ok full) = ok full
as_exception (raised message) = raised (cache_error message)

-- `_update_affinity` by the value of a result, which is never None where the call succeeded.
unfoldable pub updated : Option FullAffinity → Client → Client
unfolding update_affinity
updated none c = c
updated (some full) c = update_affinity full c

-- The results that the server's answers to the request come to, one after the other, for the caches
-- that are asked for: each a result, or an error of the connection.
abbrev pub Calls : Type 0 → Type 0
Calls M = List ℤ → ℕ → Outcome (AffinityError M) (ApiResult M (Option Partitions))

module _ {M : Type 0} (calls : Calls M) where
  -- The loop, at its turn `i` and with `n` turns after it.
  unfoldable pub tries :
      List ℤ → ℕ → ℕ → Outcome (AffinityError M) (ApiResult M (Option FullAffinity))
  unfolding post_process_partitions
  tries caches i zero = do r ← calls caches i; ok (post_process_partitions r)
  tries caches i (suc n) = do
    r ← calls caches i
    let rest = tries caches (suc i) n
    if succeeded r.status then ok (post_process_partitions r) else rest

  -- `_get_affinity`
  unfoldable pub get_affinity : List ℤ → Outcome (AffinityError M) (Option FullAffinity)
  unfolding tries as_exception
  get_affinity caches = do
    result ← tries caches 0 (affinity_retries - 1)
    as_exception (status_to_exception result)

-- What comes of it in `get_best_node`: it goes on with the mapping of a client, or returns at once, with
-- the connection that `random_node` gave at that time, or `random_node` raises.
pub data Refreshed : Type 0 where
  went_on returned_at : ℕ → Client → Refreshed
  no_node : Refreshed

-- An error of the connection leads to the rest of the loop, a `CacheError` to the return.
unfoldable pub caught :
    {M : Type 0}
    → ℕ
    → Client
    → Refreshed
    → Outcome (AffinityError M) (Option FullAffinity)
    → Refreshed
unfolding updated
caught i c rest (ok full) = went_on i (updated full c)
caught i c rest (raised connection_error) = rest
caught i c rest (raised (cache_error message)) = returned_at i c

module _ {M : Type 0} where
  -- The loop, with the connections that `random_node` gives one after the other until it raises.
  unfoldable pub ask : ℕ → List ℤ → Client → List (Calls M) → Refreshed
  unfolding get_affinity caught
  ask i caches c [] = no_node
  ask i caches c (calls ∷ others) =
      let rest = ask (suc i) caches c others in caught i c rest (get_affinity calls caches)

  -- The part of `get_best_node` that updates the mapping.
  unfoldable pub refresh : List (Calls M) → Client → Refreshed
  unfolding ask
  refresh conns c = elim (caches_to_update_affinity c) [
    | [] ↦ went_on 0 c
    | c_id ∷ c_ids ↦ ask 0 (c_id ∷ c_ids) c conns
  ]
