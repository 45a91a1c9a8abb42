-- ===== src/Amx.antt =====
-- driver-amix/amx.c: AMIX binaries on Atari System V.
pub mod Signal
pub mod Errno
pub mod Struct
pub mod Contexts
pub mod Machine
pub mod Prepare
pub mod Finish
pub mod Gate
