-- ===== src/Connection/Protocol/Fallback.antt =====
-- The version that a connection is made with, and the features of the protocol context.
use python_thin_client.Prelude.{
  ℕ, zero, suc, ◌+◌, ◌/◌, ◌*◌, ◌≡◌, ◌⊎◌, inl, inr, refl, ap, Bool, true, false, Option, none, some,
  if◌then◌else◌, arith, Bool-cases,
}
use python_thin_client.Datatypes.Wire.{from_bytes-to_bytes}
use python_thin_client.Datatypes.Scalars.{bit_length}
use python_thin_client.Datatypes.Scalars.Laws.{pow_bytes}
use python_thin_client.Datatypes.Scalars.Decimals.{lt-bit_length}
use python_thin_client.Connection.Protocol.{
  Version, protocols, in_protocols, max_protocol, all_supported, feature_bytes, from_array,
  ProtocolContext, is_feature_flags_supported, ensure_consistency, new_context, set_version,
  set_features, Handshake, accepted, refused, authentication_failed, broken, Peer, connect_loop,
  connect,
}
use native.Mathlib.Nat.{pow-le-pow_right}

-- The bit mask of a set of features reads back from its bytes.
pub from_array-feature_bytes : (f : ℕ) → from_array (some (feature_bytes f)) ≡ some f
unfolding from_array feature_bytes
from_array-feature_bytes f =
    let n = bit_length f f / 8 + 1 in
    ap some (
      from_bytes-to_bytes n f (
        omega (
          arith,
          lt-bit_length f f (omega arith),
          pow-le-pow_right {n = 2} (omega arith) {i = bit_length f f} {j = 8 * n} (omega arith),
          pow_bytes n,
        )))

-- Features are kept only by a version that has feature flags.
abbrev pub IsConsistent : ProtocolContext → Type 0
IsConsistent c = (is_feature_flags_supported c ≡ true) ⊎ (c.features ≡ none)

abbrev pub EachConsistent : Option ProtocolContext → Type 0
EachConsistent none = Unit {0}
EachConsistent (some c) = IsConsistent c

ensure_consistency-IsConsistent : (c : ProtocolContext) → IsConsistent (ensure_consistency c)
unfolding ensure_consistency
ensure_consistency-IsConsistent c = elim (Bool-cases (is_feature_flags_supported c)) [
  | inl yes_flags ↦ rw yes_flags (inl yes_flags)
  | inr no_flags ↦ rw no_flags (inr refl)
]

set_features-IsConsistent : (f : Option ℕ) (c : ProtocolContext) → IsConsistent (set_features f c)
unfolding set_features
set_features-IsConsistent f c = ensure_consistency-IsConsistent (record c { features = f })

set_version-IsConsistent : (v : Version) (c : ProtocolContext) → IsConsistent (set_version v c)
unfolding set_version
set_version-IsConsistent v c = ensure_consistency-IsConsistent (record c { version = v })

new_context-IsConsistent : (v : Version) (f : Option ℕ) → IsConsistent (new_context v f)
unfolding new_context
new_context-IsConsistent v f =
    ensure_consistency-IsConsistent (record { version = v; features = f })

module _ (attempt : ProtocolContext → Handshake) where
  connect_loop-IsConsistent :
      (fuel : ℕ) (detecting : Bool) (c : ProtocolContext) (p : Peer)
      → IsConsistent c
      → EachConsistent p.protocol_context
      → EachConsistent (connect_loop attempt fuel detecting c p).1.protocol_context
  unfolding connect_loop
  connect_loop-IsConsistent zero detecting c p hc hp = hp
  connect_loop-IsConsistent (suc fuel) detecting c p hc hp = by_reply (attempt c) refl (λ v.
      connect_loop-IsConsistent fuel detecting (set_version v c)
        (record p { protocol_context = some (set_version v c) }) (set_version-IsConsistent v c)
        (set_version-IsConsistent v c))
    where
      kept : (b : Bool) → EachConsistent (if b then none else some c)
      kept true = tt
      kept false = hc

      by_reply :
          (r : Handshake)
          → attempt c ≡ r
          → ((v : Version)
              → EachConsistent
                  (connect_loop attempt fuel detecting
                    (set_version v c)
                    (record p { protocol_context = some (set_version v c) })).1.protocol_context)
          → EachConsistent (connect_loop attempt (suc fuel) detecting c p).1.protocol_context
      by_reply (accepted fs) e rest =
          rw (e, connect_loop) (set_features-IsConsistent (from_array fs) c)
      by_reply (refused v) e rest = elim (Bool-cases (in_protocols v protocols)) [
        | inl known ↦ rw (e, connect_loop, known) (rest v)
        | inr unknown ↦ rw (e, connect_loop, unknown) hc
      ]
      by_reply authentication_failed e rest = rw (e, connect_loop) hc
      by_reply broken e rest = rw (e, connect_loop) (kept detecting)

  -- However the attempts to connect end, the protocol context that the client is left with has no
  -- features unless its version has feature flags, if the one before had not.
  pub connect-IsConsistent :
      (fuel : ℕ) (p : Peer)
      → EachConsistent p.protocol_context
      → EachConsistent (connect attempt fuel p).1.protocol_context
  unfolding connect
  connect-IsConsistent fuel p hp = by_context p.protocol_context refl
    where
      by_context :
          (o : Option ProtocolContext)
          → p.protocol_context ≡ o
          → EachConsistent (connect attempt fuel p).1.protocol_context
      by_context none e =
          let c = new_context max_protocol (some all_supported) in
          let good : IsConsistent c = new_context-IsConsistent max_protocol (some all_supported) in
          rw (e, connect)
            (connect_loop-IsConsistent fuel true c (record p { protocol_context = some c }) good
              good)
      by_context (some c) e =
          rw (e, connect) (connect_loop-IsConsistent fuel false c p (rw e at hp) hp)
