-- ===== src/Client/Affinity/Refresh.antt =====
-- When the client asks the server for mappings, and what is left to ask for afterwards.
use python_thin_client.Prelude.{
  ◌≡◌, ◌⊎◌, inl, inr, refl, sym, true, false, some, List, [], ◌∷◌, arith, Bool-cases, if◌then◌else◌,
  All,
}
use python_thin_client.Prelude.Int.{ℤ}
use python_thin_client.Prelude.Dict.{
  Dict, lookup, insert, update, keys, has, Distinct, Entries, int_key, eq_ℤ_iff, insert-Distinct,
  lookup-insert,
}
use python_thin_client.Prelude.Numbers.{eq_ℤ}
use mathlib.Core.Bool.{false≢true}
use python_thin_client.Client.Affinity.{
  Client, CacheMapping, FullAffinity, unset, mapped, before, register_cache, update_affinity,
  without_mapping, caches_to_update_affinity,
}

abbrev pub IsMapped : CacheMapping → Type 0
IsMapped unset = ⊥
IsMapped (mapped a f n p) = Unit {0}

has_of : (i j : ℤ) (d : Dict ℤ CacheMapping) → eq_ℤ i j ≡ true → has i d ≡ false → has j d ≡ false
has_of i j d same h = rw (← (eq_ℤ_iff i j).0 same) h

without_mapping-nil :
    (d : Dict ℤ CacheMapping)
    → Entries (λ j m. IsMapped m ⊎ (false ≡ true)) d
    → without_mapping d ≡ []
unfolding without_mapping
without_mapping-nil [] h = refl
without_mapping-nil ((j, unset) ∷ d) h = absurd (ground arith)
without_mapping-nil ((j, mapped a f n p) ∷ d) h = without_mapping-nil d h.1

-- What the answer must still bring: entries that are unset have their key in the answer.
abbrev Covered : Dict ℤ CacheMapping → ℤ → CacheMapping → Type 0
Covered e j m = IsMapped m ⊎ (has j e ≡ true)

-- An entry under another key than `j` is covered without `j`.
uncover :
    (i j : ℤ) (v w : CacheMapping) (e : Dict ℤ CacheMapping)
    → eq_ℤ i j ≡ false
    → Covered ((j, v) ∷ e) i w
    → Covered e i w
unfolding has
uncover i j v w e ne (inl h) = inl h
uncover i j v w e ne (inr h) = inr (ground (arith, eq_ℤ_iff i j, eq_ℤ_iff j i))

uncover-All :
    (j : ℤ) (v : CacheMapping) (e d : Dict ℤ CacheMapping)
    → has j d ≡ false
    → Entries (Covered ((j, v) ∷ e)) d
    → Entries (Covered e) d
unfolding has
uncover-All j v e [] hj h = tt
uncover-All j v e ((i, w) ∷ d) hj h = elim (Bool-cases (eq_ℤ i j)) [
  | inl same ↦ absurd (false≢true (sym (ground arith)))
  | inr ne ↦ (uncover i j v w e ne h.0, uncover-All j v e d (ground arith) h.1)
]

insert-Covered :
    (j : ℤ) (v : CacheMapping) (e d : Dict ℤ CacheMapping)
    → IsMapped v
    → Distinct d
    → Entries (Covered ((j, v) ∷ e)) d
    → Entries (Covered e) (insert j v d)
unfolding insert has
insert-Covered j v e [] hv hd h = (inl hv, tt)
insert-Covered j v e ((i, w) ∷ d) hv hd h = elim (Bool-cases (eq_ℤ i j)) [
  | inl same ↦ rw same (inl hv, uncover-All j v e d (has_of i j d same hd.0) h.1)
  | inr ne ↦ rw ne (uncover i j v w e ne h.0, insert-Covered j v e d hv hd.1 h.1)
]

update-set :
    (e d : Dict ℤ CacheMapping)
    → Entries (λ j v. IsMapped v) e
    → Distinct d
    → Entries (Covered e) d
    → without_mapping (update d e) ≡ []
unfolding update
update-set [] d he hd h = unfold has in without_mapping-nil d h
update-set ((j, v) ∷ e) d he hd h =
    update-set e (insert j v d) he.1 (insert-Distinct j v d hd) (insert-Covered j v e d he.0 hd h)

-- The server answered for every cache that it was asked for, with a mapping each time.
pub record Answers (asked : List ℤ) (full : FullAffinity) : Type 0 where
  pub all : All (λ c_id. has c_id full.partition_mapping ≡ true) asked
  pub set : Entries (λ j m. IsMapped m) full.partition_mapping

asked-All :
    (d e : Dict ℤ CacheMapping) → All (λ c_id. has c_id e ≡ true) (keys d) → Entries (Covered e) d
asked-All [] e h = tt
asked-All ((j, m) ∷ d) e h = (inr h.0, asked-All d e h.1)

asked_unset :
    (d e : Dict ℤ CacheMapping)
    → All (λ c_id. has c_id e ≡ true) (without_mapping d)
    → Entries (Covered e) d
unfolding without_mapping
asked_unset [] e h = tt
asked_unset ((j, unset) ∷ d) e h = (inr h.0, asked_unset d e h.1)
asked_unset ((j, mapped a f n p) ∷ d) e h = (inl tt, asked_unset d e h)

-- An answer for everything that the client asked for, at a version not before the one that it has
-- heard of, leaves no cache to ask for.
pub caches_to_update_affinity-update_affinity :
    (c : Client) (full : FullAffinity)
    → Distinct c.partition_mapping
    → Answers (caches_to_update_affinity c) full
    → before full.version c.affinity_version ≡ false
    → caches_to_update_affinity (update_affinity full c) ≡ []
unfolding caches_to_update_affinity update_affinity
caches_to_update_affinity-update_affinity c full distinct answer fresh =
    rw fresh (update-set full.partition_mapping c.partition_mapping answer.set distinct covered)
  where
    covered : Entries (Covered full.partition_mapping) c.partition_mapping
    covered = elim (Bool-cases (before c.known_version c.affinity_version)) [
      | inl old ↦ asked-All c.partition_mapping full.partition_mapping (rw old at answer.all)
      | inr new ↦ asked_unset c.partition_mapping full.partition_mapping (rw new at answer.all)
    ]

-- On a partition-aware client, registering a cache drops the mapping that it had, and no other.
pub register_cache_forgets :
    (c : Client) (cache_id other : ℤ)
    → c.partition_aware ≡ true
    → lookup other (register_cache cache_id c).partition_mapping
      ≡ (if eq_ℤ cache_id other then some unset else lookup other c.partition_mapping)
unfolding register_cache
register_cache_forgets c cache_id other aware =
    rw aware (lookup-insert cache_id other unset c.partition_mapping)
