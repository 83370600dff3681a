-- ===== src/Tests.antt =====
-- The library's results on concrete inputs, and what the program's operations compute there.
mod Locking
mod Counters
mod Arrays
mod Tables
mod Lines
mod Values
mod Polling
mod Dumping
mod Keys
mod Pools
mod Files
mod System
mod Blocks
mod Start
mod Run
mod Distinct
