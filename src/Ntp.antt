-- ===== src/Ntp.antt =====
-- tools/ttntp/ttntp.c: Ntp/Dns the look-up of a server's name, Ntp/Records the login records of a boot
-- whose clock was wrong.
pub mod Dns
pub mod Records
mod Tests
