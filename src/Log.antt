-- ===== src/Log.antt =====
-- pmf_log.c and pmf_log.h: the log's level and file, and the lines that it writes.
pub mod Level
pub mod Line
pub mod Format
