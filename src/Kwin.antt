-- ===== src/Kwin.antt =====
-- src/kwin-virtual-desktops: the snapshots of the virtual desktops.
pub mod Snapshot
pub mod Observer
mod Tests
