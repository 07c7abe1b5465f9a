-- ===== src/Provisioner.antt =====
-- The allocate service (hwallocator/provisioner) and the heartbeat service (hwallocator/heartbeat_server)
-- over the redis database that they share.
pub mod Store
pub mod Requestor
pub mod Fulfiller
pub mod Heartbeats
pub mod Expires
pub mod Jobs
pub mod Claims
pub mod Dangling
