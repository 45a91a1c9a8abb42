-- ===== src/Ufs.antt =====
-- mint/ufsxfs/ufs.c: Atari System V's UFS file systems for FreeMiNT, read only.
pub mod Disk
pub mod Blocks
pub mod Files
pub mod Dirs
pub mod Calls
pub mod Mount
pub mod Path
pub mod Scan
pub mod Stat
mod Tests
