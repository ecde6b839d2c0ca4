-- ===== src/Hart/Machine.antt =====
-- `hart_step` of src/hart.c keeps the invariant of the machine: the hart and the bus it steps on.
use rve.Base.{
  ℕ, ◌≡◌, arith, Bool, some, ◌==◌, bit_and-lt, bit_or-lt, Option-cases, inl, inr, if-elim,
}
use rve.Word.{IsWord, not32}
use rve.Bus.{Bus, bus_read}
use rve.Bus.WiredDevice.{AllWired}
use rve.Bus.Wired.{bus_read-ReadOk}
use rve.Decoder.Types.{DecodedInstruction, zeroed}
use rve.Decoder.Decode.{rve_decode_instruction}
use rve.Hart.Types.{Hart, Retire, ecall_m, illegal_instr, trap_is_interrupt}
use rve.Hart.Trap.{commit_trap, trap_vector, trap_tval}
use rve.Hart.Access.{Locals, misaligned}
use rve.Hart.Step.{locals, commit, commit_fault, commit_clean, run_word, fetch_fault, hart_step}
use rve.Hart.Status.{trap_mstatus_lem}
use rve.Decoder.Words.{decode-WordFields}
use rve.Hart.ValidAccess.{IsWords, WordLocals, set_gpr-IsWords}
use rve.Hart.Valid.{execute-Word}
use rve.Hart.Retire.{hart_step-Explains}

-- The hart and the bus after a step.
record Kept (x : Retire × Hart × Bus) : Type 0 where
  pub words : IsWords x.1
  pub wired : AllWired x.2

trap_vector-IsWord :
    (mtvec c : ℕ) (is_int : Bool) → IsWord mtvec → IsWord (trap_vector mtvec c is_int)
unfolding trap_vector
trap_vector-IsWord mtvec c is_int w = ground (arith, bit_and-lt 32 mtvec (not32 3) w)

trap_tval-IsWord : (c pc w m b : ℕ) → IsWord w → IsWord m → IsWord b → IsWord (trap_tval c pc w m b)
unfolding trap_tval
trap_tval-IsWord c pc w m b h g k = ground arith

commit_trap-IsWords :
    (hart : Hart) (c tval : ℕ)
    → IsWords hart
    → IsWord c
    → IsWord tval
    → IsWords (commit_trap hart c tval).0 × IsWord (commit_trap hart c tval).1
unfolding commit_trap
commit_trap-IsWords hart c tval h w t =
    let k = h.csr in
    let m = trap_mstatus_lem hart.csr.mstatus k.mstatus in
    (
      record {
        gpr = h.gpr;
        pc = h.pc;
        csr = record {
          mstatus = omega arith;
          mtvec = k.mtvec;
          mepc = h.pc;
          mcause =
              if-elim IsWord (trap_is_interrupt c) (λ e. bit_or-lt 32 0x8000_0000 c (omega arith) w)
                (λ e. w);
          mtval = t;
          mscratch = k.mscratch;
        };
      },
      trap_vector-IsWord hart.csr.mtvec c (trap_is_interrupt c) k.mtvec,
    )

commit_fault-Kept : (s : Locals) (c : ℕ) → WordLocals s → IsWord c → Kept (commit_fault s c)
unfolding commit_fault
commit_fault-Kept s c x w =
    let t =
      trap_tval-IsWord c s.hart.pc s.r.instruction s.mem_addr s.bad_pc x.instruction x.mem_addr
        x.bad_pc in
    let (h, v) = commit_trap-IsWords s.hart c _ x.hart w t in
    let g = set_gpr-IsWords _ 0 0 h (omega arith) in
    record { words = record { gpr = g.gpr; csr = g.csr; pc = v }; wired = x.bus }

commit_clean-Kept : (s : Locals) (di : DecodedInstruction) → WordLocals s → Kept (commit_clean s di)
unfolding commit_clean
commit_clean-Kept s di x =
    let g = set_gpr-IsWords s.hart 0 0 x.hart (omega arith) in
    record { words = record { gpr = g.gpr; csr = g.csr; pc = x.next_pc }; wired = x.bus }

commit-Kept : (s : Locals) (di : DecodedInstruction) → WordLocals s → Kept (commit s di)
unfolding commit
commit-Kept s di x = elim (Option-cases s.pending_trap) [
  | inl e ↦ rw e (commit_clean-Kept s di x)
  | inr (c, e) ↦ rw e (
      if-elim Kept (c == ecall_m) (λ b. record { words = x.hart; wired = x.bus })
        (λ b. commit_fault-Kept s c x (rw e at x.code)))
]

run_word-Kept : (s : Locals) (w : ℕ) → IsWord w → WordLocals s → Kept (run_word s w)
unfolding run_word
run_word-Kept s w h x =
    let di = rve_decode_instruction w in
    let r = s.r in
    let s' : Locals = record s { r = record r { instruction = w; di = di } } in
    let x' : WordLocals s' = record {
      hart = x.hart;
      bus = x.bus;
      instruction = h;
      next_pc = x.next_pc;
      mem_addr = x.mem_addr;
      bad_pc = x.bad_pc;
      code = x.code;
    } in
    let s'' : Locals = record s' { pending_trap = some illegal_instr } in
    let x'' : WordLocals s'' = record {
      hart = x.hart;
      bus = x.bus;
      instruction = h;
      next_pc = x.next_pc;
      mem_addr = x.mem_addr;
      bad_pc = x.bad_pc;
      code = omega arith;
    } in
    if-elim Kept di.valid
      (λ e. commit-Kept _ di (execute-Word di.op di s' (decode-WordFields w h) x'))
      (λ e. commit-Kept s'' di x'')

fetch_fault-Kept : (s : Locals) (c : ℕ) → IsWord c → WordLocals s → Kept (fetch_fault s c)
unfolding fetch_fault
fetch_fault-Kept s c w x =
    let s' : Locals = record s { bad_pc = s.hart.pc; pending_trap = some c } in
    commit-Kept s' zeroed (record {
      hart = x.hart;
      bus = x.bus;
      instruction = x.instruction;
      next_pc = x.next_pc;
      mem_addr = x.mem_addr;
      bad_pc = x.hart.pc;
      code = w;
    })

locals-Word : (hart : Hart) (bus : Bus) → IsWords hart → AllWired bus → WordLocals (locals hart bus)
locals-Word hart bus h a = record {
  hart = h;
  bus = a;
  instruction = omega arith;
  next_pc = omega arith;
  mem_addr = omega arith;
  bad_pc = omega arith;
  code = omega arith;
}

hart_step-Kept : (hart : Hart) (bus : Bus) → IsWords hart → AllWired bus → Kept (hart_step hart bus)
unfolding hart_step
hart_step-Kept hart bus h a =
    let k = bus_read-ReadOk bus hart.pc 32 a (omega arith) in
    if-elim Kept (misaligned hart.pc)
      (λ e. fetch_fault-Kept (locals hart bus) 0 (omega arith) (locals-Word hart bus h a))
      (λ e.
        let x = locals-Word hart (bus_read bus hart.pc 32).1 h k.wired in
        elim (Option-cases (bus_read bus hart.pc 32).0) [
          | inl f ↦ rw f (fetch_fault-Kept _ 1 (omega arith) x)
          | inr (w, f) ↦ rw f (run_word-Kept _ w (k.word w f) x)
        ])

-- The invariant: words everywhere, zero in x0, and devices with contexts of their kind.
pub record Machine (hart : Hart) (bus : Bus) : Type 0 where
  pub words : IsWords hart
  pub x0 : hart.gpr 0 ≡ 0
  pub wired : AllWired bus

-- A step keeps the invariant of the machine, on every path: every register, CSR and the PC is a
-- word below 2^32, x0 is zero, and each active slot of the bus has a context of the kind of its
-- operations, with bytes in the memory and in the registers of the UART.
pub hart_step-Machine :
    (hart : Hart) (bus : Bus)
    → Machine hart bus
    → let (r, hart', bus') = hart_step hart bus in Machine hart' bus'
hart_step-Machine hart bus m =
    let k = hart_step-Kept hart bus m.words m.wired in
    let e = hart_step-Explains hart bus m.x0 in
    record { words = k.words; x0 = e.x0; wired = k.wired }
