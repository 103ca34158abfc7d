-- ===== src/Util.antt =====
-- bm-wire/src/util.rs: the wrapping millisecond clock and the matching of topics.
pub mod Time
pub mod Wildcard
