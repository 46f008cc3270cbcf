-- ===== src/Connection/Protocol.antt =====
-- pygridgain/connection/protocol_context.py and bitmask_feature.py, and `Connection.connect` of
-- connection.py, whose attempts with one version are a parameter.
pub mod Fallback
mod Runs
use python_thin_client.Prelude.{
  ℕ, zero, suc, ◌+◌, ◌-◌, ◌*◌, ◌/◌, ◌^◌, Bool, true, false, ◌&&◌, ◌||◌, not, Option, none, some,
  List, [], ◌∷◌, ltb, ◌==◌, if◌then◌else◌, bit_and, bit_or,
}
use python_thin_client.Datatypes.Wire.{to_bytes, from_bytes}
use python_thin_client.Datatypes.Scalars.{bit_length}

abbrev pub Version : Type 0
Version = ℕ × ℕ × ℕ

-- v >= w, as tuples
unfoldable pub at_least : Version → Version → Bool
at_least v w = ltb w.0 v.0 || (v.0 == w.0 && (ltb w.1 v.1 || (v.1 == w.1 && not (ltb v.2 w.2))))

unfoldable pub same_version : Version → Version → Bool
same_version v w = v.0 == w.0 && (v.1 == w.1 && v.2 == w.2)

abbrev pub protocols : List Version
protocols = (1, 7, 1) ∷ (1, 7, 0) ∷ (1, 6, 0) ∷ (1, 5, 0) ∷ (1, 4, 0) ∷ (1, 3, 0) ∷ (1, 2, 0) ∷ []

unfoldable pub in_protocols : Version → List Version → Bool
unfolding same_version
in_protocols v [] = false
in_protocols v (w ∷ ws) = same_version w v || in_protocols v ws

-- max(PROTOCOLS)
abbrev pub max_protocol : Version
max_protocol = (1, 7, 1)

abbrev pub cluster_api : ℕ
cluster_api = 4

abbrev pub query_index_vector_similarity : ℕ
query_index_vector_similarity = 2 ^ 33

-- `BitmaskFeature.all_supported`
abbrev pub all_supported : ℕ
all_supported = bit_or (bit_or 0 cluster_api) query_index_vector_similarity

-- `BitmaskFeature.__bytes__`
unfoldable pub feature_bytes : ℕ → List ℕ
unfolding bit_length
feature_bytes features = to_bytes (bit_length features features / 8 + 1) features

unfoldable pub from_array : Option (List ℕ) → Option ℕ
from_array none = none
from_array (some features_array) = some (from_bytes features_array)

pub record ProtocolContext : Type 0 where
  pub version : Version
  pub features : Option ℕ

unfoldable pub is_partition_awareness_supported : ProtocolContext → Bool
is_partition_awareness_supported c = at_least c.version (1, 4, 0)

unfoldable pub is_status_flags_supported : ProtocolContext → Bool
is_status_flags_supported c = at_least c.version (1, 4, 0)

unfoldable pub is_transactions_supported : ProtocolContext → Bool
is_transactions_supported c = at_least c.version (1, 6, 0)

unfoldable pub is_feature_flags_supported : ProtocolContext → Bool
unfolding at_least
is_feature_flags_supported c = at_least c.version (1, 7, 0)

unfoldable pub is_user_attributes_supported : ProtocolContext → Bool
is_user_attributes_supported c = at_least c.version (1, 7, 1)

unfoldable pub is_expiry_policy_supported : ProtocolContext → Bool
is_expiry_policy_supported c = at_least c.version (1, 6, 0)

-- `flag in features`, which no features and the empty set of features do not have
unfoldable pub has_feature : ℕ → Option ℕ → Bool
has_feature flag none = false
has_feature flag (some features) = not (features == 0) && (bit_and flag features == flag)

unfoldable pub is_cluster_api_supported : ProtocolContext → Bool
unfolding has_feature
is_cluster_api_supported c = has_feature cluster_api c.features

unfoldable pub is_query_index_vector_similarity_supported : ProtocolContext → Bool
unfolding has_feature
is_query_index_vector_similarity_supported c = has_feature query_index_vector_similarity c.features

-- `_ensure_consistency`
unfoldable pub ensure_consistency : ProtocolContext → ProtocolContext
unfolding is_feature_flags_supported
ensure_consistency c = if is_feature_flags_supported c then c else record c { features = none }

unfoldable pub new_context : Version → Option ℕ → ProtocolContext
unfolding ensure_consistency
new_context version features =
    ensure_consistency (record { version = version; features = features })

unfoldable pub set_version : Version → ProtocolContext → ProtocolContext
unfolding ensure_consistency
set_version version c = ensure_consistency (record c { version = version })

unfoldable pub set_features : Option ℕ → ProtocolContext → ProtocolContext
unfolding ensure_consistency
set_features features c = ensure_consistency (record c { features = features })

-- What `_connect_version` comes to: the features of the answer, `HandshakeError` with the version
-- that the server expects, `AuthenticationError`, or another exception.
pub data Handshake : Type 0 where
  accepted : Option (List ℕ) → Handshake
  refused : Version → Handshake
  authentication_failed : Handshake
  broken : Handshake

pub data Connected : Type 0 where
  connected handshake_error authentication_error other_error still_trying : Connected

-- what `connect` writes: the protocol context of the client, and the flag of the connection
pub record Peer : Type 0 where
  pub protocol_context : Option ProtocolContext
  pub failed : Bool

module _ (attempt : ProtocolContext → Handshake) where
  -- the loop, which goes on where the server names another version that the client knows
  unfoldable pub connect_loop : ℕ → Bool → ProtocolContext → Peer → Connected × Peer
  unfolding set_version set_features from_array in_protocols
  connect_loop zero detecting c p = (still_trying, p)
  connect_loop (suc fuel) detecting c p = elim (attempt c) [
    | accepted features ↦ (
      connected,
      record { protocol_context = some (set_features (from_array features) c); failed = false },
    )
    | refused expected_version ↦
        let c' = set_version expected_version c in
        let rest = connect_loop fuel detecting c' (record p { protocol_context = some c' }) in
        if in_protocols expected_version protocols
        then rest
        else (handshake_error, record { protocol_context = some c; failed = true })
    | authentication_failed ↦
        (authentication_error, record { protocol_context = some c; failed = true })
    | broken ↦ (
      other_error,
      record { protocol_context = if detecting then none else some c; failed = true },
    )
  ]

  -- `connect`: from the highest version where the client has no protocol context yet
  unfoldable pub connect : ℕ → Peer → Connected × Peer
  unfolding connect_loop new_context
  connect fuel p = elim p.protocol_context [
    | none ↦
        let c = new_context max_protocol (some all_supported) in
        connect_loop fuel true c (record p { protocol_context = some c })
    | some c ↦ connect_loop fuel false c p
  ]
