-- ===== src/Decoder/Recognise.antt =====
-- What `rve_decode_instruction` of src/decoder.c recognises.
pub mod Switches
pub mod Words
pub mod Formats
pub mod IType
pub mod Normal
pub mod Exact
