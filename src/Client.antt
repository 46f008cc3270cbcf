-- ===== src/Client.antt =====
-- pygridgain/client.py and the parts of aio_client.py that differ: the nodes of a client, and where
-- a key goes.
pub mod Affinity
pub mod Nodes
