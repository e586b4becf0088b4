-- ===== src/Fec.antt =====
-- src/fec.cpp, include/norr/fec.hpp: forward error correction.
pub mod Header
pub mod Symbols
pub mod Field
pub mod FieldLaws
pub mod Cauchy
pub mod Independence
pub mod Vector
pub mod Encoder
pub mod Decoder
pub mod Parity
pub mod Missing
pub mod Columns
pub mod System
pub mod Recovery
pub mod Delivery
pub mod Arrival
pub mod Open
pub mod Lookup
pub mod Branches
pub mod Steps
pub mod Receipt
pub mod Emission
pub mod Tests
pub mod Elimination
pub mod Dot
pub mod Rounds
pub mod Solution
pub mod Solved
