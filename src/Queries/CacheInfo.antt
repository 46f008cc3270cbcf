-- ===== src/Queries/CacheInfo.antt =====
-- pygridgain/queries/cache_info.py and pygridgain/datatypes/expiry_policy.py. A duration is its number
-- of milliseconds.
pub mod RoundTrip
use python_thin_client.Prelude.{
  ℕ, ◌+◌, ◌*◌, ◌^◌, Bool, true, false, ◌&&◌, not, Option, none, some, List, [], ◌∷◌, ◌++◌, ◌==◌,
  if◌then◌else◌, bit_and, bit_or,
}
use python_thin_client.Prelude.Int.{ℤ, pos, negsuc}
use python_thin_client.Prelude.Numbers.{eq_ℤ}
use python_thin_client.Prelude.Outcome.{Outcome, ok, raised, ◌>>=◌}
use python_thin_client.Datatypes.Wire.{
  Stream, Result, CodecError, overflow_error, not_supported, field,
}
use python_thin_client.Datatypes.Scalars.{get_int, put_int, pack_signed}
use python_thin_client.Connection.Protocol.{
  ProtocolContext, is_transactions_supported, is_expiry_policy_supported,
}

pub record ExpiryPolicy : Type 0 where
  pub create : ℤ
  pub update : ℤ
  pub access : ℤ

unfoldable pub write_policy : ExpiryPolicy → Result (List ℕ)
unfolding pack_signed
write_policy p = do
  a ← pack_signed 8 p.create
  b ← pack_signed 8 p.update
  c ← pack_signed 8 p.access
  ok (a ++ (b ++ c))

-- `ExpiryPolicy.from_python`
unfoldable pub write_expiry_policy : Option ExpiryPolicy → Result (List ℕ)
unfolding write_policy
write_expiry_policy none = ok (0 ∷ [])
write_expiry_policy (some p) = do body ← write_policy p; ok (1 ∷ body)

unfoldable pub read_policy : Stream → Result (ExpiryPolicy × Stream)
unfolding get_int
read_policy s = do
  (a, s1) ← get_int 8 s
  (b, s2) ← get_int 8 s1
  (c, s3) ← get_int 8 s2
  ok (record { create = a; update = b; access = c }, s3)

-- `ExpiryPolicy.parse` and `to_python`
unfoldable pub read_expiry_policy : Stream → Result (Option ExpiryPolicy × Stream)
unfolding read_policy
read_expiry_policy s = do
  (not_null, s1) ← field 1 s
  if not_null == 0 then ok (none, s1) else (do (p, s2) ← read_policy s1; ok (some p, s2))

abbrev pub transactions_mask : ℕ
transactions_mask = 0x02

abbrev pub expiry_policy_mask : ℕ
expiry_policy_mask = 0x04

pub record CacheInfo : Type 0 where
  pub cache_id : ℤ
  pub expiry_policy : Option ExpiryPolicy

-- the policy's part of the flags, which raises where the cluster has no expiry policies
unfoldable pub policy_flag : ProtocolContext → Option ExpiryPolicy → Result ℕ
policy_flag c none = ok 0
policy_flag c (some p) =
    if is_expiry_policy_supported c then ok (bit_or 0 expiry_policy_mask) else raised not_supported

-- the transaction that is written: one that is not 0, where the cluster has transactions
unfoldable pub written_tx : ProtocolContext → Option ℤ → Option ℤ
written_tx c none = none
written_tx c (some tx_id) =
    if is_transactions_supported c && not (eq_ℤ tx_id (pos 0)) then some tx_id else none

unfoldable pub tx_flag : ℕ → Option ℤ → ℕ
tx_flag flags none = flags
tx_flag flags (some tx_id) = bit_or flags transactions_mask

unfoldable pub write_optional : {A : Type 0} → (A → Result (List ℕ)) → Option A → Result (List ℕ)
write_optional write none = ok []
write_optional write (some x) = write x

-- `CacheInfo.from_python`, where `get_tx_id` gave the transaction of the context
unfoldable pub write_cache_info : ProtocolContext → Option ℤ → CacheInfo → Result (List ℕ)
unfolding policy_flag written_tx tx_flag write_optional write_policy
write_cache_info c tx_id info = do
  id_bytes ← pack_signed 4 info.cache_id
  flag ← policy_flag c info.expiry_policy
  let tx = written_tx c tx_id
  policy_bytes ← write_optional write_policy info.expiry_policy
  tx_bytes ← write_optional (pack_signed 4) tx
  ok (id_bytes ++ ((tx_flag flag tx ∷ []) ++ (policy_bytes ++ tx_bytes)))
