-- ===== src/Inventory.antt =====
-- app/domains/inventory: from a confirmed stock count to a requisition.
pub mod Requisition
pub mod Requisitions
pub mod Normalise
pub mod Mapping
pub mod Counts
mod Tests
