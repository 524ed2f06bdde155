-- ===== src/Packages.antt =====
-- packages/manifest.py and packages/catalog.py: package versions and the resolution of dependencies.
pub mod Version
pub mod Precedence
pub mod Manifest
pub mod Catalog
pub mod Filed
pub mod Order
pub mod Resolve
pub mod Constrained
pub mod Tested
pub mod Sound
pub mod Topological
pub mod Resolved
pub mod Fuel
pub mod Visits
pub mod Terminates
pub mod Acyclic
pub mod Requirements
pub mod Feasible
pub mod Quiet
pub mod Complete
