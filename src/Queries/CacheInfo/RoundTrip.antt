-- ===== src/Queries/CacheInfo/RoundTrip.antt =====
-- What a server reads of a cache description.
use python_thin_client.Prelude.{
  ℕ, ◌≡◌, refl, Bool, true, false, ◌&&◌, not, Option, none, some, List, [], ◌∷◌, ◌++◌, append_assoc,
  append-nil, ◌==◌, bit_and, arith, Bool-cases, inl, inr,
}
use python_thin_client.Prelude.Int.{ℤ, pos}
use python_thin_client.Prelude.Numbers.{eq_ℤ}
use python_thin_client.Prelude.Outcome.{ok, raised, ◌>>=◌}
use python_thin_client.Datatypes.Wire.{field_byte, Stream, Result, not_supported, field}
use python_thin_client.Datatypes.Scalars.{put_int, get_int, Fits}
use python_thin_client.Datatypes.Scalars.Laws.{get_int-put_int, pack_signed_lem}
use python_thin_client.Connection.Protocol.{
  ProtocolContext, is_transactions_supported, is_expiry_policy_supported,
}
use python_thin_client.Queries.CacheInfo.{
  ExpiryPolicy, write_policy, write_expiry_policy, read_policy, read_expiry_policy,
  transactions_mask, expiry_policy_mask, CacheInfo, policy_flag, written_tx, tx_flag,
  write_optional, write_cache_info,
}

abbrev pub PolicyFits : ExpiryPolicy → Type 0
PolicyFits p = Fits 64 p.create × Fits 64 p.update × Fits 64 p.access

abbrev policy_bytes : ExpiryPolicy → List ℕ
policy_bytes p = put_int 8 p.create ++ (put_int 8 p.update ++ put_int 8 p.access)

write_policy_lem : (p : ExpiryPolicy) → PolicyFits p → write_policy p ≡ ok (policy_bytes p)
unfolding write_policy
write_policy_lem p (a, b, c) =
    rw (pack_signed_lem 8 p.create a, pack_signed_lem 8 p.update b, pack_signed_lem 8 p.access c)
      refl

read_policy_lem :
    (p : ExpiryPolicy) (rest : Stream)
    → PolicyFits p
    → read_policy (policy_bytes p ++ rest) ≡ ok (p, rest)
unfolding read_policy
read_policy_lem p rest (a, b, c) =
    rw
      (
        append_assoc,
        get_int-put_int 8 p.create ((put_int 8 p.update ++ put_int 8 p.access) ++ rest)
            (omega arith) a,
        append_assoc,
        get_int-put_int 8 p.update (put_int 8 p.access ++ rest) (omega arith) b,
        get_int-put_int 8 p.access rest (omega arith) c,
      )
      refl

-- An expiry policy of 64-bit durations reads back.
pub read_expiry_policy-write_expiry_policy :
    (p : ExpiryPolicy) (rest : Stream)
    → PolicyFits p
    → (body : List ℕ) × (write_expiry_policy (some p) ≡ ok body)
      × (read_expiry_policy (body ++ rest) ≡ ok (some p, rest))
unfolding write_expiry_policy read_expiry_policy
read_expiry_policy-write_expiry_policy p rest h = (
  1 ∷ policy_bytes p,
  rw (write_policy_lem p h) refl,
  rw
      (
        field_byte 1 ((put_int 8 p.create ++ (put_int 8 p.update ++ put_int 8 p.access)) ++ rest),
        read_policy_lem p rest h,
      )
      refl,
)

abbrev read_optional :
    {A : Type 0} → Bool → (Stream → Result (A × Stream)) → Stream → Result (Option A × Stream)
read_optional false read s = ok (none, s)
read_optional true read s = do (x, rest) ← read s; ok (some x, rest)

abbrev pub has_flag : ℕ → ℕ → Bool
has_flag mask flags = not (bit_and flags mask == 0)

-- What a server reads of the description of a cache: the identifier, and by the flags the expiry
-- policy and the transaction.
abbrev pub read_cache_info : Stream → Result ((ℤ × Option ExpiryPolicy × Option ℤ) × Stream)
read_cache_info s = do
  (cache_id, s1) ← get_int 4 s
  (flags, s2) ← field 1 s1
  (policy, s3) ← read_optional (has_flag expiry_policy_mask flags) read_policy s2
  (tx_id, s4) ← read_optional (has_flag transactions_mask flags) (get_int 4) s3
  ok ((cache_id, policy, tx_id), s4)

abbrev pub AllFit : Option ExpiryPolicy → Type 0
AllFit none = Unit {0}
AllFit (some p) = PolicyFits p

abbrev pub TxFits : Option ℤ → Type 0
TxFits none = Unit {0}
TxFits (some tx_id) = Fits 32 tx_id

written_tx-TxFits : (c : ProtocolContext) (tx : Option ℤ) → TxFits tx → TxFits (written_tx c tx)
unfolding written_tx
written_tx-TxFits c none h = tt
written_tx-TxFits c (some tx_id) h =
    elim (Bool-cases (is_transactions_supported c && not (eq_ℤ tx_id (pos 0)))) [
      | inl yes_tx ↦ rw yes_tx h
      | inr no_tx ↦ rw no_tx tt
    ]

-- Where the cluster has expiry policies, and the numbers fit their fields, a server reads back the identifier, the policy,
-- and the transaction of the context, if that is not 0 and the cluster has transactions.
pub write_cache_info_lem :
    (c : ProtocolContext) (tx : Option ℤ) (info : CacheInfo)
    → is_expiry_policy_supported c ≡ true
    → Fits 32 info.cache_id
    → AllFit info.expiry_policy
    → TxFits tx
    → (body : List ℕ) × (write_cache_info c tx info ≡ ok body)
      × ((rest : Stream)
          → read_cache_info (body ++ rest)
            ≡ ok ((info.cache_id, info.expiry_policy, written_tx c tx), rest))
unfolding write_cache_info policy_flag tx_flag write_optional
write_cache_info_lem c tx info supported hi hp ht =
    by_parts info.expiry_policy refl hp (written_tx c tx) refl (written_tx-TxFits c tx ht)
  where
    by_parts :
        (p : Option ExpiryPolicy)
        → info.expiry_policy ≡ p
        → AllFit p
        → (t : Option ℤ) → written_tx c tx ≡ t
        → TxFits t
        → (body : List ℕ) × (write_cache_info c tx info ≡ ok body)
          × ((rest : Stream)
              → read_cache_info (body ++ rest)
                ≡ ok ((info.cache_id, info.expiry_policy, written_tx c tx), rest))
    by_parts none ep fp none et ft = (
      put_int 4 info.cache_id ++ (0 ∷ []),
      rw (pack_signed_lem 4 info.cache_id hi, ep, et, write_cache_info) refl,
      λ rest.
          rw
            (
              append_assoc,
              get_int-put_int 4 info.cache_id (0 ∷ rest) (omega arith) hi,
              field_byte 0 rest,
              ep,
              et,
            )
            refl,
    )
    by_parts none ep fp (some t) et ft = (
      put_int 4 info.cache_id ++ ((2 ∷ []) ++ put_int 4 t),
      rw (pack_signed_lem 4 info.cache_id hi, ep, et, pack_signed_lem 4 t ft, write_cache_info)
          refl,
      λ rest.
          rw
            (
              append_assoc,
              get_int-put_int 4 info.cache_id ((2 ∷ put_int 4 t) ++ rest) (omega arith) hi,
              field_byte 2 (put_int 4 t ++ rest),
              get_int-put_int 4 t rest (omega arith) ft,
              ep,
              et,
            )
            refl,
    )
    by_parts (some p) ep fp none et ft = (
      put_int 4 info.cache_id ++ ((4 ∷ []) ++ (policy_bytes p ++ [])),
      rw
          (
            pack_signed_lem 4 info.cache_id hi,
            ep,
            et,
            supported,
            write_policy_lem p fp,
            write_cache_info,
          )
          refl,
      λ rest.
          rw
            (
              append-nil,
              append_assoc,
              get_int-put_int 4 info.cache_id ((4 ∷ policy_bytes p) ++ rest) (omega arith) hi,
              field_byte 4 (policy_bytes p ++ rest),
              read_policy_lem p rest fp,
              ep,
              et,
            )
            refl,
    )
    by_parts (some p) ep fp (some t) et ft = (
      put_int 4 info.cache_id ++ ((6 ∷ []) ++ (policy_bytes p ++ put_int 4 t)),
      rw
          (
            pack_signed_lem 4 info.cache_id hi,
            ep,
            et,
            supported,
            write_policy_lem p fp,
            pack_signed_lem 4 t ft,
            write_cache_info,
          )
          refl,
      λ rest.
          rw
            (
              append_assoc,
              get_int-put_int 4 info.cache_id ((6 ∷ (policy_bytes p ++ put_int 4 t)) ++ rest)
                  (omega arith) hi,
              field_byte 6 ((policy_bytes p ++ put_int 4 t) ++ rest),
              append_assoc,
              read_policy_lem p (put_int 4 t ++ rest) fp,
              get_int-put_int 4 t rest (omega arith) ft,
              ep,
              et,
            )
            refl,
    )

-- Where the cluster has no expiry policies, a description with one raises.
pub write_cache_info_unsupported :
    (c : ProtocolContext) (tx : Option ℤ) (cache_id : ℤ) (p : ExpiryPolicy)
    → is_expiry_policy_supported c ≡ false
    → Fits 32 cache_id
    → write_cache_info c tx (record { cache_id = cache_id; expiry_policy = some p })
      ≡ raised not_supported
unfolding write_cache_info policy_flag
write_cache_info_unsupported c tx cache_id p unsupported hi =
    rw (pack_signed_lem 4 cache_id hi, unsupported, write_cache_info) refl
