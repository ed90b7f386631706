-- ===== src/Factory.antt =====
-- The factories of virtual machines (factory/) and the operations of a Vm that they call
-- (hypervisor/vm.go).
pub mod Vms
pub mod Bases
pub mod Cache
pub mod Choice
pub mod Sizes
pub mod Workers
pub mod Drained
mod Tests
mod CacheTests
