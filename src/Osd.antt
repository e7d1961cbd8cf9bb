-- ===== src/Osd.antt =====
-- net/ceph/osdmap.c: the arithmetic of the osd map.
pub mod Striping
pub mod Bins
pub mod StrHash
pub mod Layout
pub mod Trees
pub mod Acting
pub mod Tests
