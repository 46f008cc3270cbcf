-- ===== src/Api/Affinity/Refreshes.antt =====
-- The refreshing of the mapping, on connections that are lost, refuse or answer.
use python_thin_client.Prelude.{
  ℕ, zero, suc, ◌+◌, ◌<◌, ◌≤◌, ◌≡◌, refl, Bool, true, false, Option, none, some, List, [], ◌∷◌,
  ◌++◌, suc, arith, if◌then◌else◌, All, inl, inr, Bool-cases,
}
use python_thin_client.Prelude.Int.{ℤ, pos, negsuc}
use python_thin_client.Prelude.Outcome.{ok, raised}
use python_thin_client.Prelude.Dict.{Dict, insert, has, Distinct, Entries, int_key, has-insert}
use python_thin_client.Prelude.Numbers.{eq_ℤ}
use python_thin_client.Utils.{ApiResult, status_to_exception}
use python_thin_client.Client.Affinity.{
  Client, CacheMapping, FullAffinity, before, update_affinity, caches_to_update_affinity,
}
use python_thin_client.Client.Affinity.Refresh.{
  IsMapped, Answers, caches_to_update_affinity-update_affinity,
}
use python_thin_client.Api.Affinity.{
  CacheInfo, PartitionMap, applicable, inapplicable, Partitions, add_applicable, add_inapplicable,
  add_maps, tidy, Calls, ask, caught, went_on, returned_at, connection_error, cache_error,
  affinity_retries, get_affinity, refresh, tries, tidied, as_exception, updated,
  post_process_partitions, succeeded, node_mapping,
}

-- The answer names a cache.
abbrev pub names_info : ℤ → List CacheInfo → Bool
names_info i [] = false
names_info i (info ∷ infos) = if eq_ℤ info.cache_id i then true else names_info i infos

abbrev pub names_id : ℤ → List ℤ → Bool
names_id i [] = false
names_id i (j ∷ js) = if eq_ℤ j i then true else names_id i js

abbrev pub names_cache : ℤ → List PartitionMap → Bool
names_cache i [] = false
names_cache i (applicable infos ns ∷ maps) = if names_info i infos then true else names_cache i maps
names_cache i (inapplicable js ∷ maps) = if names_id i js then true else names_cache i maps

has-add_applicable :
    (i : ℤ) (nodes : Dict ℕ (List ℕ)) (infos : List CacheInfo) (d : Dict ℤ CacheMapping)
    → has i (add_applicable nodes infos d) ≡ (if names_info i infos then true else has i d)
unfolding add_applicable
has-add_applicable i nodes [] d = refl
has-add_applicable i nodes (info ∷ infos) d =
    rw (has-add_applicable i nodes infos _, has-insert info.cache_id i _ d) (ground arith)

has-add_inapplicable :
    (i : ℤ) (js : List ℤ) (d : Dict ℤ CacheMapping)
    → has i (add_inapplicable js d) ≡ (if names_id i js then true else has i d)
unfolding add_inapplicable
has-add_inapplicable i [] d = refl
has-add_inapplicable i (j ∷ js) d =
    rw (has-add_inapplicable i js _, has-insert j i _ d) (ground arith)

has-add_maps :
    (i : ℤ) (maps : List PartitionMap) (d : Dict ℤ CacheMapping)
    → has i (add_maps maps d) ≡ (if names_cache i maps then true else has i d)
unfolding add_maps
has-add_maps i [] d = refl
has-add_maps i (applicable infos ns ∷ maps) d =
    rw (has-add_maps i maps _, has-add_applicable i (node_mapping ns) infos d) (ground arith)
has-add_maps i (inapplicable js ∷ maps) d =
    rw (has-add_maps i maps _, has-add_inapplicable i js d) (ground arith)

abbrev AllMapped : Dict ℤ CacheMapping → Type 0
AllMapped d = Entries (λ j m. IsMapped m) d

insert-AllMapped :
    (i : ℤ) (m : CacheMapping) (d : Dict ℤ CacheMapping)
    → IsMapped m
    → AllMapped d
    → AllMapped (insert i m d)
unfolding insert
insert-AllMapped i m [] hm hd = (hm, tt)
insert-AllMapped i m ((j, w) ∷ d) hm hd = elim (Bool-cases (eq_ℤ j i)) [
  | inl same ↦ rw same (hm, hd.1)
  | inr other ↦ rw other (hd.0, insert-AllMapped i m d hm hd.1)
]

add_applicable-AllMapped :
    (nodes : Dict ℕ (List ℕ)) (infos : List CacheInfo) (d : Dict ℤ CacheMapping)
    → AllMapped d
    → AllMapped (add_applicable nodes infos d)
unfolding add_applicable
add_applicable-AllMapped nodes [] d h = h
add_applicable-AllMapped nodes (info ∷ infos) d h =
    add_applicable-AllMapped nodes infos _ (insert-AllMapped info.cache_id _ d tt h)

add_inapplicable-AllMapped :
    (js : List ℤ) (d : Dict ℤ CacheMapping) → AllMapped d → AllMapped (add_inapplicable js d)
unfolding add_inapplicable
add_inapplicable-AllMapped [] d h = h
add_inapplicable-AllMapped (j ∷ js) d h =
    add_inapplicable-AllMapped js _ (insert-AllMapped j _ d tt h)

add_maps-AllMapped :
    (maps : List PartitionMap) (d : Dict ℤ CacheMapping) → AllMapped d → AllMapped (add_maps maps d)
unfolding add_maps
add_maps-AllMapped [] d h = h
add_maps-AllMapped (applicable infos ns ∷ maps) d h =
    add_maps-AllMapped maps _ (add_applicable-AllMapped (node_mapping ns) infos d h)
add_maps-AllMapped (inapplicable js ∷ maps) d h =
    add_maps-AllMapped maps _ (add_inapplicable-AllMapped js d h)

add_maps-All :
    (maps : List PartitionMap) (asked : List ℤ)
    → All (λ i. names_cache i maps ≡ true) asked
    → All (λ i. has i (add_maps maps []) ≡ true) asked
add_maps-All maps [] h = tt
add_maps-All maps (i ∷ asked) h =
    (rw (has-add_maps i maps [], h.0) refl, add_maps-All maps asked h.1)

-- An answer that names every cache that is asked for gives a mapping for each.
tidy-Answers :
    (p : Partitions) (asked : List ℤ)
    → All (λ i. names_cache i p.partition_mapping ≡ true) asked
    → Answers asked (tidy p)
unfolding tidy
tidy-Answers p asked named = record {
  all = add_maps-All p.partition_mapping asked named;
  set = add_maps-AllMapped p.partition_mapping [] tt;
}

raised_status :
    {M : Type 0} (n : ℤ) (message : M) (v : Option FullAffinity)
    → succeeded n ≡ false
    → as_exception (status_to_exception (record { status = n; message = message; value = v }))
      ≡ raised (cache_error message)
unfolding succeeded status_to_exception as_exception
raised_status (pos zero) message v bad = absurd (ground arith)
raised_status (pos (suc n)) message v bad = refl
raised_status (negsuc n) message v bad = refl

-- Connections that are lost while the client asks.
abbrev pub Lost : {M : Type 0} → List ℤ → List (Calls M) → Type 0
Lost asked conns = All (λ calls. get_affinity calls asked ≡ raised connection_error) conns

ask-Lost :
    {M : Type 0} (i : ℕ) (asked : List ℤ) (c : Client) (lost others : List (Calls M))
    → Lost asked lost
    → (j : ℕ) × (ask i asked c (lost ++ others) ≡ ask j asked c others)
unfolding ask
ask-Lost i asked c [] others h = (i, refl)
ask-Lost i asked c (calls ∷ lost) others h =
    let (j, same) = ask-Lost (suc i) asked c lost others h.1 in (j, unfold caught in rw h.0 same)

module _ {M : Type 0} (calls : Calls M) where
  -- The call at a turn is answered with a status that is not zero.
  abbrev pub Refused : List ℤ → ℕ → Type 0
  Refused asked i =
      (r : ApiResult M (Option Partitions)) × (calls asked i ≡ ok r) × (succeeded r.status ≡ false)

  call_at :
      (asked : List ℤ) {m n : ℕ} {r : ApiResult M (Option Partitions)}
      → m ≡ n
      → calls asked m ≡ ok r
      → calls asked n ≡ ok r
  call_at asked e h = rw (← e) h

  tries_lem :
      (asked : List ℤ) (i n k : ℕ) (r : ApiResult M (Option Partitions))
      → k ≤ n
      → ((j : ℕ) → i ≤ j → j < i + k → Refused asked j)
      → calls asked (i + k) ≡ ok r
      → succeeded r.status ≡ true
      → tries calls asked i n ≡ ok (post_process_partitions r)
  unfolding tries
  tries_lem asked i zero zero r le fails here good =
      rw (call_at asked {n = i} (omega arith) here) refl
  tries_lem asked i (suc n) zero r le fails here good =
      rw (call_at asked {n = i} (omega arith) here, good) refl
  tries_lem asked i zero (suc k) r le fails here good = absurd (omega arith)
  tries_lem asked i (suc n) (suc k) r le fails here good =
      let (q, at_i, failed) = fails i (omega arith) (omega arith) in
      rw (at_i, failed)
        (tries_lem asked (suc i) n k r (omega arith)
          (λ j low high. fails j (omega arith) (omega arith)) (call_at asked (omega arith) here)
          good)

  tries_fail :
      (asked : List ℤ) (i n : ℕ) (r : ApiResult M (Option Partitions))
      → ((j : ℕ) → i ≤ j → j < i + n → Refused asked j)
      → calls asked (i + n) ≡ ok r
      → tries calls asked i n ≡ ok (post_process_partitions r)
  unfolding tries
  tries_fail asked i zero r fails here = rw (call_at asked {n = i} (omega arith) here) refl
  tries_fail asked i (suc n) r fails here =
      let (q, at_i, failed) = fails i (omega arith) (omega arith) in
      rw (at_i, failed)
        (tries_fail asked (suc i) n r (λ j low high. fails j (omega arith) (omega arith))
          (call_at asked (omega arith) here))

  get_affinity_lem :
      (asked : List ℤ) (k : ℕ) (message : M) (p : Partitions)
      → k < affinity_retries
      → ((j : ℕ) → j < k → Refused asked j)
      → calls asked k ≡ ok (record { status = pos 0; message = message; value = some p })
      → get_affinity calls asked ≡ ok (some (tidy p))
  unfolding get_affinity succeeded post_process_partitions tidied status_to_exception as_exception
  get_affinity_lem asked k message p lt fails here =
      rw
        (tries_lem asked 0 31 k (record { status = pos 0; message = message; value = some p })
          (omega arith) (λ j low high. fails j (omega arith)) (call_at asked (omega arith) here)
          refl)
        refl

  -- Let the client's mapping have each cache once. Let connections be lost, and let the next one be to a
  -- server that fails on the first requests, fewer than 32, and then answers with mappings that name
  -- every cache that the client asks for, at a version not before the one that the client has heard of.
  -- Then the refreshing goes on, and the client has nothing left to ask for.
  pub refresh_lem :
      (c : Client) (lost others : List (Calls M)) (k : ℕ) (message : M) (p : Partitions)
      → Distinct c.partition_mapping
      → Lost (caches_to_update_affinity c) lost
      → k < affinity_retries
      → ((j : ℕ) → j < k → Refused (caches_to_update_affinity c) j)
      → calls (caches_to_update_affinity c) k
        ≡ ok (record { status = pos 0; message = message; value = some p })
      → All (λ i. names_cache i p.partition_mapping ≡ true) (caches_to_update_affinity c)
      → before (p.version_major, p.version_minor) c.affinity_version ≡ false
      → (n : ℕ) × (c' : Client) × (refresh (lost ++ calls ∷ others) c ≡ went_on n c')
        × (caches_to_update_affinity c' ≡ [])
  unfolding refresh
  refresh_lem c lost others k message p distinct gone lt fails here named fresh =
      by_asked (caches_to_update_affinity c) refl
    where
      by_asked :
          (asked : List ℤ)
          → caches_to_update_affinity c ≡ asked
          → (n : ℕ) × (c' : Client) × (refresh (lost ++ calls ∷ others) c ≡ went_on n c')
            × (caches_to_update_affinity c' ≡ [])
      by_asked [] e = (0, c, rw (refresh, e) refl, e)
      by_asked (i ∷ is) e =
          let (n, same) = ask-Lost 0 (i ∷ is) c lost (calls ∷ others) (rw e at gone) in
          let answered = get_affinity_lem (i ∷ is) k message p lt (rw e at fails) (rw e at here) in
          (
            n,
            update_affinity (tidy p) c,
            rw (refresh, e, same) (unfold ask caught updated in rw answered refl),
            caches_to_update_affinity-update_affinity c (tidy p) distinct
                (tidy-Answers p (caches_to_update_affinity c) named) (unfold tidy in fresh),
          )

  -- Where there is a cache to ask for, and the server answers 32 requests with a status that is not
  -- zero, asking for the mapping raises the message of the last answer, and the refreshing returns that
  -- connection and leaves the mapping as it was.
  pub refresh_fails :
      (c : Client) (others : List (Calls M)) (i : ℤ) (is : List ℤ)
      (r : ApiResult M (Option Partitions))
      → caches_to_update_affinity c ≡ i ∷ is
      → ((j : ℕ) → j < 31 → Refused (i ∷ is) j)
      → calls (i ∷ is) 31 ≡ ok r
      → succeeded r.status ≡ false
      → (get_affinity calls (i ∷ is) ≡ raised (cache_error r.message))
        × (refresh (calls ∷ others) c ≡ returned_at 0 c)
  refresh_fails c others i is r e fails here bad =
      (failed, unfold refresh ask caught in rw (refresh, e, failed) refl)
    where
      failed : get_affinity calls (i ∷ is) ≡ raised (cache_error r.message)
      failed =
          unfold get_affinity in
          rw
            (
              tries_fail (i ∷ is) 0 31 r (λ j low high. fails j (omega arith))
                  (call_at (i ∷ is) (omega arith) here),
              post_process_partitions,
              bad,
              raised_status r.status r.message none bad,
            )
            refl
