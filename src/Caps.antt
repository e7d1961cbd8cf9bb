-- ===== src/Caps.antt =====
-- fs/ceph/caps.c: capabilities that the metadata servers give out.
pub mod Pool
pub mod Issued
pub mod Tests
