-- ===== src/Checkpoint.antt =====
-- crates/domain/checkpoint: gaps that the calendar alone determines, the segments between them,
-- late recovery, and the link from one checkpoint to the next. Times are `i64` milliseconds.
pub mod Calendar
pub mod Chain
pub mod Continuity
