-- ===== src/Dfu.antt =====
-- bm-wire/src/bcmp/dfu.rs and dfu_core.rs: device firmware update.
pub mod Message
pub mod Event
pub mod Queue
pub mod Core
pub mod Machine
pub mod Stream
pub mod Client
pub mod Host
