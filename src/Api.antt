-- ===== src/Api.antt =====
-- pygridgain/api.
pub mod KeyValue
pub mod Sql
pub mod Affinity
