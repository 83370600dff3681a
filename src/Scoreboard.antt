-- ===== src/Scoreboard.antt =====
-- pmf_scoreboard.c: the counters of a pool in shared memory. The lock is the part `Spinlock`; here
-- stands what is done while it is held.
pub mod Update
pub mod Signed
pub mod Unsigned
pub mod History
pub mod Setup
