-- ===== src/Wire.antt =====
-- Server/include/Protocol.h: the wire format that the mod and the dedicated server share.
pub mod Bytes
pub mod Messages
pub mod RoundTrip
pub mod SelfTest
