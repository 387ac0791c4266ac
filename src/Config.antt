-- ===== src/Config.antt =====
-- pkg/config: the category table, which says how each kind of managed file is deployed, and the
-- hooks of a service bundle.
pub mod Category
pub mod RelPath
pub mod Placement
pub mod Lists
pub mod Host
pub mod Assignments
pub mod Topology
pub mod Hook
