-- ===== src/Core/Identity.antt =====
-- `current_user` of app/core/deps.py: the identity cache, the second-factor gate and the gate for
-- platform admins. The clock counts microseconds. The row that the identity statement returns at
-- the time of the request is an argument.
pub mod Cache
pub mod Defs
pub mod Gates
pub mod History
