-- ===== src/Hart/ValidAccess.antt =====
-- The invariant of the hart, and the branches, jumps, loads and stores of src/hart.c that keep it.
use rve.Base.{
  ℕ, ◌≤◌, arith, Bool, Option, none, some, ◌==◌, bit_and, Option-cases, inl, inr, if-elim,
}
use rve.Word.{IsWord, sext, add32}
use rve.Bus.{bus_read}
use rve.Bus.WiredDevice.{AllWired}
use rve.Bus.Wired.{bus_read-ReadOk, bus_write-AllWired}
use rve.Decoder.Types.{DecodedInstruction}
use rve.Hart.Types.{Hart, CsrFile, set_gpr}
use rve.Hart.Access.{Locals, misaligned, exec_branch, exec_load, exec_store}
use rve.Hart.Execute.{exec_jump, write_rd}
use rve.Decoder.Words.{sext-IsWord}

pub record WordCsrs (csr : CsrFile) : Type 0 where
  pub mstatus : IsWord csr.mstatus
  pub mtvec : IsWord csr.mtvec
  pub mepc : IsWord csr.mepc
  pub mcause : IsWord csr.mcause
  pub mtval : IsWord csr.mtval
  pub mscratch : IsWord csr.mscratch

pub record IsWords (hart : Hart) : Type 0 where
  pub gpr : (j : ℕ) → IsWord (hart.gpr j)
  pub csr : WordCsrs hart.csr
  pub pc : IsWord hart.pc

-- The number of a trap; 0 where there is none.
abbrev pub code_of : Option ℕ → ℕ
code_of none = 0
code_of (some c) = c

-- The invariant of the local variables of a step.
pub record WordLocals (s : Locals) : Type 0 where
  pub hart : IsWords s.hart
  pub bus : AllWired s.bus
  pub instruction : IsWord s.r.instruction
  pub next_pc : IsWord s.next_pc
  pub mem_addr : IsWord s.mem_addr
  pub bad_pc : IsWord s.bad_pc
  pub code : IsWord (code_of s.pending_trap)

pub set_gpr-IsWords : (hart : Hart) (i v : ℕ) → IsWords hart → IsWord v → IsWords (set_gpr hart i v)
set_gpr-IsWords hart i v h w = record {
  gpr = λ j. if-elim IsWord (i == j) (λ e. w) (λ e. h.gpr j);
  csr = h.csr;
  pc = h.pc;
}

pub write_rd-Word :
    (s : Locals) (di : DecodedInstruction) (v : ℕ)
    → WordLocals s
    → IsWord v
    → WordLocals (write_rd s di v)
write_rd-Word s di v x w = record {
  hart = set_gpr-IsWords s.hart di.rd v x.hart w;
  bus = x.bus;
  instruction = x.instruction;
  next_pc = x.next_pc;
  mem_addr = x.mem_addr;
  bad_pc = x.bad_pc;
  code = x.code;
}

pub exec_branch-Word :
    (s : Locals) (di : DecodedInstruction) (taken : Bool)
    → WordLocals s
    → WordLocals (exec_branch s di taken)
unfolding exec_branch
exec_branch-Word s di taken x =
    if-elim WordLocals _
      (λ e. record {
        hart = x.hart;
        bus = x.bus;
        instruction = x.instruction;
        next_pc = x.next_pc;
        mem_addr = x.mem_addr;
        bad_pc = omega arith;
        code = omega arith;
      })
      (λ e. record {
        hart = x.hart;
        bus = x.bus;
        instruction = x.instruction;
        next_pc = ground arith;
        mem_addr = x.mem_addr;
        bad_pc = x.bad_pc;
        code = omega arith;
      })

pub exec_jump-Word :
    (s : Locals) (di : DecodedInstruction) (target : ℕ)
    → IsWord target
    → WordLocals s
    → WordLocals (exec_jump s di target)
unfolding exec_jump
exec_jump-Word s di target w x =
    if-elim WordLocals (misaligned target)
      (λ e. record {
        hart = x.hart;
        bus = x.bus;
        instruction = x.instruction;
        next_pc = x.next_pc;
        mem_addr = x.mem_addr;
        bad_pc = w;
        code = omega arith;
      })
      (λ e. record {
        hart = set_gpr-IsWords s.hart di.rd (add32 s.hart.pc 4) x.hart (omega arith);
        bus = x.bus;
        instruction = x.instruction;
        next_pc = w;
        mem_addr = x.mem_addr;
        bad_pc = x.bad_pc;
        code = x.code;
      })

pub exec_load-Word :
    (s : Locals) (di : DecodedInstruction) (size : ℕ) (sign : Bool)
    → size ≤ 32
    → WordLocals s
    → WordLocals (exec_load s di size sign)
unfolding exec_load
exec_load-Word s di size sign h x =
    let addr = add32 (s.hart.gpr di.rs1) (sext di.imm 12) in
    let k = bus_read-ReadOk s.bus addr size x.bus h in
    elim (Option-cases (bus_read s.bus addr size).0) [
      | inl e ↦
          rw (exec_load, e)
            (record {
              hart = x.hart;
              bus = k.wired;
              instruction = x.instruction;
              next_pc = x.next_pc;
              mem_addr = x.mem_addr;
              bad_pc = x.bad_pc;
              code = omega arith;
            })
      | inr (v, e) ↦
          rw (exec_load, e)
            (record {
              hart =
                  set_gpr-IsWords s.hart di.rd _ x.hart
                    (if-elim IsWord sign (λ b. sext-IsWord v size) (λ b. k.word v e));
              bus = k.wired;
              instruction = x.instruction;
              next_pc = x.next_pc;
              mem_addr = omega arith;
              bad_pc = x.bad_pc;
              code = omega arith;
            })
    ]

pub exec_store-Word :
    (s : Locals) (di : DecodedInstruction) (size mask : ℕ)
    → WordLocals s
    → WordLocals (exec_store s di size mask)
unfolding exec_store
exec_store-Word s di size mask x =
    let addr = add32 (s.hart.gpr di.rs1) (sext di.imm 12) in
    let k = bus_write-AllWired s.bus addr (bit_and (s.hart.gpr di.rs2) mask) size x.bus in
    if-elim WordLocals _
      (λ e. record {
        hart = x.hart;
        bus = k;
        instruction = x.instruction;
        next_pc = x.next_pc;
        mem_addr = omega arith;
        bad_pc = x.bad_pc;
        code = omega arith;
      })
      (λ e. record {
        hart = x.hart;
        bus = k;
        instruction = x.instruction;
        next_pc = x.next_pc;
        mem_addr = x.mem_addr;
        bad_pc = x.bad_pc;
        code = omega arith;
      })
