-- ===== src/Tests.antt =====
-- Runs of the modelled code at concrete inputs, and the theorems applied at such inputs.
mod Files
mod Storage
mod Locks
mod Cache
mod Client
mod Connections
mod Store
mod Kernel
mod Cluster
mod Counts
