-- ===== src/Connection/Protocol/Runs.antt =====
-- Runs of connecting.
use python_thin_client.Prelude.{false, none, if◌then◌else◌}
use python_thin_client.Connection.Protocol.{
  Version, same_version, ProtocolContext, Handshake, accepted, refused, Peer, connect,
}
use python_thin_client.Connection.Protocol.Fallback.{connect-IsConsistent, EachConsistent}

abbrev old : Version
old = (1, 4, 0)

abbrev fresh : Peer
fresh = record { protocol_context = none; failed = false }

-- A server of version 1.4.0.
abbrev server : ProtocolContext → Handshake
server c = if same_version c.version old then accepted none else refused old

abbrev stubborn : ProtocolContext → Handshake
stubborn c = refused old

connect-IsConsistent_example : EachConsistent (connect server 3 fresh).1.protocol_context
connect-IsConsistent_example = connect-IsConsistent server 3 fresh tt
