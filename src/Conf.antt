-- ===== src/Conf.antt =====
-- pmf_conf.c and pmf_conf.h: the configuration.
pub mod Values
pub mod Records
pub mod Options
pub mod Parse
pub mod Check
pub mod Load
pub mod Dump
pub mod Pid
pub mod Expand
