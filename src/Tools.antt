-- ===== src/Tools.antt =====
-- The generator of a test program, tools/gen.c (src/tests/gen.c is a copy of it), and the tests of
-- the decoder, src/tests/decoder.c.
pub mod Gen
pub mod Suite
pub mod Endless
