-- ===== src/Client/Affinity/Runs.antt =====
-- Runs of the affinity part.
use python_thin_client.Prelude.{◌^◌, ◌≡◌, true, false, none, some, [], ◌∷◌, arith}
use python_thin_client.Prelude.Int.{pos, negsuc}
use python_thin_client.Prelude.Numbers.{signed, unsigned}
use python_thin_client.Prelude.Outcome.{ok, raised}
use python_thin_client.Prelude.Dict.{int_key}
use python_thin_client.Client.Affinity.{
  Client, Node, CacheMapping, unset, mapped, FullAffinity, partition, assertion_error,
}
use python_thin_client.Client.Affinity.Partition.{partition-rendezvous, partition_fails, rendezvous}

abbrev mapping : CacheMapping
mapping = mapped true none (some ((70, 0 ∷ 1 ∷ []) ∷ (71, 2 ∷ 3 ∷ []) ∷ [])) 4

abbrev alive_node : Node
alive_node = record { uuid = some 71; alive = true }

abbrev client : Client
client = record {
  partition_aware = true;
  affinity_version = (3, 1);
  known_version = (2, 0);
  partition_mapping = (pos 9, mapping) ∷ (pos 5, unset) ∷ [];
  nodes = record { uuid = some 70; alive = false } ∷ alive_node ∷ [];
}

abbrev answer : FullAffinity
answer = record { version = (3, 1); partition_mapping = (pos 9, mapping) ∷ (pos 5, mapping) ∷ [] }

partition-rendezvous_example :
    (partition (negsuc 5) (2 ^ 10) ≡ ok (rendezvous 10 (unsigned 32 (negsuc 5))))
    × (partition (signed 32 (negsuc 5)) (2 ^ 10) ≡ partition (negsuc 5) (2 ^ 10))
partition-rendezvous_example = partition-rendezvous 10 (negsuc 5) (omega arith)

partition_fails_example :
    (partition (pos 100) 10 ≡ raised assertion_error)
    × (partition (negsuc 100) 10 ≡ raised assertion_error)
partition_fails_example = partition_fails 100 10 (λ h. absurd (omega arith)) (omega arith)
