-- ===== src/Hypervisor.antt =====
-- The hypervisor resource manager (resource_managers/hypervisor).
pub mod Vm
pub mod Allocator
pub mod Rest
pub mod Dhcp
pub mod Calls
pub mod Images
pub mod CloudInit
pub mod Template
pub mod Machines
pub mod Storage
pub mod Info
pub mod Startup
pub mod Devices
