-- ===== src/Decoder.antt =====
-- The instruction decoder (src/decoder.c, include/rve/decoder.h).
pub mod Types
pub mod Fields
pub mod Formats
pub mod RType
pub mod IType
pub mod Decode
pub mod Encoding
pub mod RoundTrip
pub mod Names
pub mod Print
pub mod Recognise
pub mod Words
pub mod Typed
