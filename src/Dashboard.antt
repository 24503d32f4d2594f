-- ===== src/Dashboard.antt =====
-- services/ops-dashboard/src/lib: the state of the operations dashboard.
pub mod Planner
pub mod AlertFeed
pub mod FleetMap
pub mod Panels
