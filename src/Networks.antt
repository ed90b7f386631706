-- ===== src/Networks.antt =====
-- The network interfaces of a sandbox: NetworkContext of hypervisor/network.go. What runs under the
-- slot lock is one step; a goroutine that waits for the driver is a job, and its end another step.
pub mod State
pub mod Slots
pub mod Methods
pub mod Addresses
pub mod Moves
pub mod Free
pub mod Keeps
pub mod Kept
pub mod Order
pub mod Panics
pub mod Updates
mod Tests
