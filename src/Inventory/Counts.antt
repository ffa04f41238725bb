-- ===== src/Inventory/Counts.antt =====
-- app/domains/inventory/counts_service.py: a stock count, from the photo of a sheet to its sign-off.
pub mod Tables
pub mod Service
pub mod Extract
pub mod Background
pub mod Reviewed
pub mod Signed
mod Tests
