-- ===== src/Webhooks.antt =====
pub mod Workload
pub mod Template
