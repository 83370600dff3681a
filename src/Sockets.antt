-- ===== src/Sockets.antt =====
-- pmf_sockets.c and pmf_sockets.h: the listening sockets.
pub mod Address
pub mod Key
pub mod Table
pub mod Opening
pub mod Binding
pub mod Closing
pub mod Setup
