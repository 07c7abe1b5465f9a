-- ===== src/Utils.antt =====
-- The helpers that the resource managers share (resource_managers/utils).
pub mod Waiter
pub mod Pci
