-- ===== src/Crush.antt =====
-- CRUSH: net/ceph/crush/{hash,crush,mapper}.c and include/linux/crush/crush.h, the map from a
-- placement input to an ordered set of devices.
pub mod Hash
pub mod Outcome
pub mod Types
pub mod Bucket
pub mod State
pub mod Firstn
pub mod Tests
pub mod Indep
pub mod Rule
