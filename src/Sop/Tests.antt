-- ===== src/Sop/Tests.antt =====
-- A day at one outlet, as test data and as examples of the theorems.
mod Data
mod Examples
