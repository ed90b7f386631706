-- ===== src/Resources.antt =====
-- The volumes and containers of a sandbox: hypervisor/disk.go, the operations on volumes and
-- containers of hypervisor/context.go, and ContainerContext.add of hypervisor/container.go.
-- An operation runs under the context's lock, so it is one step; a goroutine that waits for the
-- driver or for a WaitGroup is a job, and its end is another step.
pub mod Disks
pub mod State
pub mod Methods
pub mod Volumes
pub mod Containers
pub mod Moves
pub mod Groups
pub mod Safety
pub mod DiskSafety
pub mod VolumeSafety
pub mod WaitSafety
pub mod ContainerSafety
pub mod Histories
pub mod Requests
pub mod Stalls
pub mod Stuck
mod Tests
