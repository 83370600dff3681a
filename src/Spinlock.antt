-- ===== src/Spinlock.antt =====
-- pmf_atomic.h: the spin lock in shared memory, and the processes that update a state under it.
pub mod Lock
pub mod Variants
pub mod System
pub mod Invariant
pub mod Safety
pub mod Board
pub mod Serial
