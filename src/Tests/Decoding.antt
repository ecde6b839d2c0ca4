-- ===== src/Tests/Decoding.antt =====
-- The decoder at fixed words (src/decoder.c).
use rve.Base.{◌≡◌, refl, arith}
use rve.Decoder.Types.{Op}
use rve.Decoder.Encoding.{Operands, encoding, assemble, decoded}
use rve.Decoder.Typed.{IsTyped, rve_decode_instruction-IsTyped}
use rve.Decoder.Decode.{rve_decode_instruction}
use rve.Decoder.RoundTrip.{decode-assemble}

-- `beq x1, x2, -8`
abbrev branch_back : Operands
branch_back = record { rd = 0; rs1 = 1; rs2 = 2; imm = 0xFFFF_FFF8 }

decode-assemble_example :
    rve_decode_instruction (assemble (encoding Op.beq) branch_back)
    ≡ decoded Op.beq (encoding Op.beq) branch_back (assemble (encoding Op.beq) branch_back)
decode-assemble_example =
    decode-assemble Op.beq branch_back (omega arith, omega arith, omega arith, (refl, refl))

-- `addi x1, x0, 5`
rve_decode_instruction-IsTyped_example : IsTyped 0x0050_0093 (rve_decode_instruction 0x0050_0093)
rve_decode_instruction-IsTyped_example = rve_decode_instruction-IsTyped 0x0050_0093 (omega arith)
