-- ===== src/Datagen.antt =====
-- internal/datagen: disk reports and work orders.
pub mod Report
pub mod Classify
pub mod WorkOrder
pub mod Split
pub mod Seeds
