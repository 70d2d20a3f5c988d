-- ===== src/Crypto.antt =====
-- src/xrd/crypto: request signing, checksums and the DER reader.
pub mod Sigver
pub mod Crc32c
pub mod Checksum
pub mod Der
