-- ===== src/Controllers.antt =====
-- controllers/
pub mod ConditionReasons
pub mod Inventory
pub mod Kustomization
pub mod HelmRelease
pub mod SourceRepository
pub mod Worktree
pub mod InventoryNames
pub mod Workload
pub mod Sources
pub mod Frames
pub mod Interleaving
pub mod Provenance
pub mod Convergence
pub mod Reading
pub mod Histories
pub mod Pipeline
pub mod EndToEnd
