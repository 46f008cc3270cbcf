-- ===== src/Api/Affinity/Runs.antt =====
-- Runs of the refreshing of affinity mappings.
use python_thin_client.Prelude.{
  ℕ, zero, suc, ◌<◌, ◌≡◌, refl, true, false, Option, none, some, List, [], ◌∷◌, arith,
}
use python_thin_client.Prelude.Int.{ℤ, pos, negsuc}
use python_thin_client.Prelude.Numbers.{eq_ℤ, and_mask, xor_mask, unsigned}
use python_thin_client.Prelude.Outcome.{Outcome, ok, raised}
use python_thin_client.Prelude.Dict.{has, lookup, update, int_key, nat_key}
use python_thin_client.Utils.{ApiResult}
use python_thin_client.Client.Affinity.{
  Client, Node, partition, get_node_by_hashcode, unset, mapped, before, elem,
  caches_to_update_affinity,
}
use python_thin_client.Api.Affinity.{
  NodePartitions, CacheInfo, applicable, inapplicable, Partitions, node_pairs, node_mapping,
  applicable_mapping, AffinityError, Calls, connection_error, get_affinity, tries, went_on,
  returned_at, cache_error, refresh, succeeded,
}
use python_thin_client.Api.Affinity.Mapping.{first_with, get_node_by_hashcode-node_mapping}
use python_thin_client.Api.Affinity.Refreshes.{refresh_lem, refresh_fails}

abbrev two_nodes : List NodePartitions
two_nodes =
    record { node_uuid = 70; node_partitions = 0 ∷ 1 ∷ 1 ∷ [] }
    ∷ record { node_uuid = 71; node_partitions = 2 ∷ 1 ∷ [] }
    ∷ []

abbrev alive_node : Node
alive_node = record { uuid = some 71; alive = true }

abbrev partitions : Partitions
partitions = record {
  version_major = 3;
  version_minor = 1;
  partition_mapping =
      applicable (record { cache_id = pos 9; cache_config = (pos 4, negsuc 7) ∷ [] } ∷ []) two_nodes
      ∷ inapplicable (pos 5 ∷ [])
      ∷ [];
}

abbrev info : CacheInfo
info = record { cache_id = pos 9; cache_config = [] }

abbrev up_client : Client
up_client = record {
  partition_aware = true;
  affinity_version = (3, 1);
  known_version = (3, 1);
  partition_mapping =
      (pos 9, mapped true (some []) (some ((70, 0 ∷ 1 ∷ []) ∷ (71, 2 ∷ 1 ∷ []) ∷ [])) 4) ∷ [];
  nodes = record { uuid = some 70; alive = false } ∷ alive_node ∷ [];
}

get_node_of_example :
    (part : ℕ) × (partition (pos 2) 4 ≡ ok part)
    × (first_with part two_nodes ≡ some 71)
    × (true ≡ true)
unfolding and_mask xor_mask unsigned eq_ℤ get_node_by_hashcode has lookup node_pairs elem
    applicable_mapping node_mapping update
get_node_of_example =
    get_node_by_hashcode-node_mapping (pos 9) (pos 2) 4 up_client two_nodes info {n = alive_node}
      {c' = up_client} (refl, (refl, tt)) refl refl

abbrev stale_client : Client
stale_client = record {
  partition_aware = true;
  affinity_version = (3, 1);
  known_version = (2, 0);
  partition_mapping = (pos 9, mapped true none none 4) ∷ (pos 5, unset) ∷ [];
  nodes = [];
}

-- The messages are numbers here. The server fails at first.
abbrev late_calls : List ℤ → ℕ → Outcome (AffinityError ℕ) (ApiResult ℕ (Option Partitions))
late_calls asked zero = ok (record { status = pos 1; message = 1; value = none })
late_calls asked (suc i) = ok (record { status = pos 0; message = 0; value = some partitions })

abbrev lost_calls : Calls ℕ
lost_calls asked i = raised connection_error

refresh_lem_example :
    (n : ℕ) × (c' : Client) × (refresh (lost_calls ∷ late_calls ∷ []) stale_client ≡ went_on n c')
    × (caches_to_update_affinity c' ≡ [])
unfolding before caches_to_update_affinity eq_ℤ has succeeded get_affinity tries
refresh_lem_example =
    refresh_lem late_calls stale_client (lost_calls ∷ []) [] 1 0 partitions (refl, (refl, tt))
      (refl, tt) (omega arith) first refl (refl, (refl, tt)) refl
  where
    first :
        (j : ℕ)
        → j < 1
        → (r : ApiResult ℕ (Option Partitions)) × (late_calls
              (caches_to_update_affinity stale_client)
              j
            ≡ ok r)
          × (succeeded r.status ≡ false)
    first zero lt = (record { status = pos 1; message = 1; value = none }, refl, refl)
    first (suc j) lt = absurd (omega arith)

abbrev no_calls : List ℤ → ℕ → Outcome (AffinityError ℕ) (ApiResult ℕ (Option Partitions))
no_calls asked i = ok (record { status = negsuc 0; message = i; value = none })

refresh_fails_example :
    (get_affinity no_calls (pos 9 ∷ pos 5 ∷ []) ≡ raised (cache_error 31))
    × (refresh (no_calls ∷ []) stale_client ≡ returned_at 0 stale_client)
unfolding before caches_to_update_affinity succeeded
refresh_fails_example =
    refresh_fails no_calls stale_client [] (pos 9) (pos 5 ∷ [])
      (record { status = negsuc 0; message = 31; value = none }) refl
      (λ j lt. (record { status = negsuc 0; message = j; value = none }, refl, refl)) refl refl
