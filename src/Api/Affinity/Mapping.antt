-- ===== src/Api/Affinity/Mapping.antt =====
-- The node mapping of an answer, and the node that is chosen by it.
use python_thin_client.Prelude.{
  ℕ, ◌≡◌, refl, sym, ◌∙◌, true, false, Option, none, some, List, [], ◌∷◌, ◌++◌, arith,
  if◌then◌else◌, ==_iff,
}
use python_thin_client.Prelude.Dict.{
  Dict, Key, insert, update, has, Distinct, append_apart, nat_key, int_key, lookup,
}
use python_thin_client.Prelude.Int.{ℤ}
use python_thin_client.Prelude.Outcome.{ok}
use python_thin_client.Client.Affinity.{
  NodeId, Node, Client, elem, owner, partition, cache_partition_mapping, node_mapping_of,
  get_node_by_hashcode,
}
use python_thin_client.Client.Affinity.Choice.{get_node_by_hashcode_lem}
use python_thin_client.Api.Affinity.{
  NodePartitions, CacheInfo, applicable_mapping, set_of, node_pairs, node_mapping,
}

elem-set_of : (p : ℕ) (ps : List ℕ) → elem p (set_of ps) ≡ elem p ps
unfolding elem set_of
elem-set_of p [] = refl
elem-set_of p (q ∷ qs) = ground (arith, elem-set_of p qs, elem-set_of q qs, ==_iff q p)

module _ {ℓ κ} {K : Type ℓ} {V : Type κ} ⦃k : Key K⦄ where
  insert-new : (a : K) (v : V) (d : Dict K V) → has a d ≡ false → insert a v d ≡ d ++ (a, v) ∷ []
  unfolding insert has
  insert-new a v [] h = refl
  insert-new a v ((j, w) ∷ d) h = ground (arith, k.same_iff j a, insert-new a v d)

  append_nil : (d : Dict K V) → d ++ [] ≡ d
  append_nil [] = refl
  append_nil (x ∷ d) = rw (append_nil d) refl

  append_assoc : (d : Dict K V) (x : K × V) (e : Dict K V) → d ++ x ∷ e ≡ (d ++ x ∷ []) ++ e
  append_assoc [] x e = refl
  append_assoc (y ∷ d) x e = rw (append_assoc d x e) refl

  -- Updating by entries whose keys are new puts them behind the others, in order.
  update-append : (d e : Dict K V) → Distinct (d ++ e) → update d e ≡ d ++ e
  unfolding update
  update-append d [] h = rw (append_nil d) refl
  update-append d ((j, v) ∷ e) h =
      rw (insert-new j v d (append_apart d ((j, v) ∷ e) h).0, append_assoc d (j, v) e)
        (update-append (d ++ (j, v) ∷ []) e (rw (append_assoc d (j, v) e) at h))

-- The node that an answer gives a partition to.
abbrev pub first_with : ℕ → List NodePartitions → Option NodeId
first_with part [] = none
first_with part (n ∷ ns) =
    if elem part n.node_partitions then some n.node_uuid else first_with part ns

owner-node_pairs :
    (part : ℕ) (ns : List NodePartitions) → owner part (node_pairs ns) ≡ first_with part ns
unfolding owner node_pairs
owner-node_pairs part [] = refl
owner-node_pairs part (n ∷ ns) =
    rw (elem-set_of part n.node_partitions, owner-node_pairs part ns) refl

owner-node_mapping :
    (part : ℕ) (ns : List NodePartitions)
    → Distinct (node_pairs ns)
    → owner part (node_mapping ns) ≡ first_with part ns
unfolding node_mapping
owner-node_mapping part ns once =
    rw (update-append [] (node_pairs ns) once) (owner-node_pairs part ns)

same_mapping :
    (cache_id : ℤ) (c : Client) (nodes m : Dict NodeId (List ℕ)) (info : CacheInfo)
    → lookup cache_id c.partition_mapping ≡ some (applicable_mapping nodes info)
    → node_mapping_of (cache_partition_mapping cache_id c).0 ≡ some m
    → nodes ≡ m
unfolding cache_partition_mapping node_mapping_of applicable_mapping
same_mapping cache_id c nodes m info there h =
    let found : ◌≡◌ {A = Option (Dict NodeId (List ℕ))} (some nodes) (some m) =
      rw (there, node_mapping_of) at h in
    cc

-- Let a cache have the mapping that is made of an answer, which names each node once. Then the node
-- that is chosen for a hash code is alive, and it is the first node that the answer gives the partition
-- of the hash code to.
pub get_node_by_hashcode-node_mapping :
    (cache_id hashcode : ℤ) (parts : ℕ) (c : Client) (ns : List NodePartitions) (info : CacheInfo)
    {n : Node} {c' : Client}
    → Distinct (node_pairs ns)
    → lookup cache_id c.partition_mapping ≡ some (applicable_mapping (node_mapping ns) info)
    → get_node_by_hashcode cache_id hashcode parts c ≡ ok (some n, c')
    → (part : ℕ) × (partition hashcode parts ≡ ok part)
      × (first_with part ns ≡ n.uuid)
      × (n.alive ≡ true)
get_node_by_hashcode-node_mapping cache_id hashcode parts c ns info {n} {c'} once there h =
    let (part, at, chosen) = get_node_by_hashcode_lem cache_id hashcode parts c h in
    let (m, u, mapping, owned, named, up) = chosen in
    let same = same_mapping cache_id c (node_mapping ns) m info there mapping in
    (part, at, sym (owner-node_mapping part ns once) ∙ (rw same (owned ∙ sym named)), up)
