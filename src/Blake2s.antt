-- ===== src/Blake2s.antt =====
-- src/blake2s.cpp, include/norr/blake2s.hpp: the hash `Blake2s`, and HMAC and HKDF over it.
pub mod Hash
pub mod Hmac
pub mod Streaming
pub mod Blocks
pub mod Expand
pub mod Rfc
pub mod Words
pub mod Compression
pub mod Conformance
pub mod Tests
