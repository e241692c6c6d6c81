-- ===== src/Cgroup.antt =====
-- cgroup/: the driver of the cgroup v2 hierarchy.
pub mod Values
pub mod Weights
pub mod Events
pub mod V2
pub mod Confined
pub mod Waits
pub mod Apply
pub mod Plan
