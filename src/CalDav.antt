-- ===== src/CalDav.antt =====
-- src/caldav.rs: the parts of it that are modelled.
pub mod FreeBusy
pub mod Busy
pub mod Merging
pub mod Overlaps
