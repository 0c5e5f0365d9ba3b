-- ===== src/Protocol.antt =====
-- cc2camera/protocol.py: the wire formats of both updater stages, with no I/O.
pub mod Crc
pub mod Normal
pub mod Boot
pub mod Update
