-- ===== src/Hart/Step.antt =====
-- `hart_step` of src/hart.c: fetch, decode, execute, commit.
use rve.Base.{ℕ, Bool, true, false, not, ◌&&◌, none, some, ◌==◌, if◌then◌else◌}
use rve.Word.{add32}
use rve.Bus.{Bus, bus_read}
use rve.Decoder.Types.{Format, DecodedInstruction, zeroed}
use rve.Decoder.Decode.{rve_decode_instruction}
use rve.Hart.Types.{
  Hart, Retire, zero_retire, instr_misaligned, instr_access_fault, illegal_instr, ecall_m, set_gpr,
}
use rve.Hart.Trap.{trap_tval, commit_trap}
use rve.Hart.Access.{Locals, misaligned}
use rve.Hart.Execute.{execute}

-- The local variables before the fetch.
abbrev pub locals : Hart → Bus → Locals
locals hart bus =
    let r = zero_retire none in
    record {
      hart = hart;
      bus = bus;
      r = record r { pc = hart.pc };
      pending_trap = none;
      next_pc = add32 hart.pc 4;
      mem_addr = 0;
      bad_pc = 0;
    }

-- `format` is neither S nor B.
abbrev pub has_rd : Format → Bool
has_rd Format.s_type = false
has_rd Format.b_type = false
has_rd _ = true

-- The lines that every path but ECALL ends with.
abbrev pub retire : Hart → Bus → Retire → ℕ → Retire × Hart × Bus
retire hart bus r next_pc =
    let hart' = set_gpr hart 0 0 in
    (record r { next_pc = next_pc }, record hart' { pc = next_pc }, bus)

-- A trap is taken.
unfoldable pub commit_fault : Locals → ℕ → Retire × Hart × Bus
commit_fault s trap =
    let r = s.r in
    let tv = trap_tval trap s.hart.pc s.r.instruction s.mem_addr s.bad_pc in
    let (hart', next_pc) = commit_trap s.hart trap tv in
    retire hart' s.bus (record r { trap = some trap }) next_pc

-- A clean retirement records the register that was written.
unfoldable pub commit_clean : Locals → DecodedInstruction → Retire × Hart × Bus
commit_clean s di =
    let r = s.r in
    let written = not (di.rd == 0) && has_rd di.format in
    let r' =
      if written
      then record r { rd_written = true; rd = di.rd; rd_value = s.hart.gpr di.rd }
      else r in
    retire s.hart s.bus r' s.next_pc

-- The code at the label `commit`.
unfoldable pub commit : Locals → DecodedInstruction → Retire × Hart × Bus
unfolding commit_fault commit_clean
commit s di = elim s.pending_trap [
  | some trap ↦ if trap == ecall_m then (s.r, s.hart, s.bus) else commit_fault s trap
  | none ↦ commit_clean s di
]

-- Decode and execute a word that was fetched.
unfoldable pub run_word : Locals → ℕ → Retire × Hart × Bus
unfolding commit
run_word s instruction =
    let di = rve_decode_instruction instruction in
    let r = s.r in
    let s' = record s { r = record r { instruction = instruction; di = di } } in
    if di.valid
    then commit (execute di.op di s') di
    else commit (record s' { pending_trap = some illegal_instr }) di

-- A fetch that fails: the decoded instruction is still zero.
unfoldable pub fetch_fault : Locals → ℕ → Retire × Hart × Bus
unfolding commit
fetch_fault s trap = commit (record s { bad_pc = s.hart.pc; pending_trap = some trap }) zeroed

unfoldable pub hart_step : Hart → Bus → Retire × Hart × Bus
unfolding run_word fetch_fault
hart_step hart bus =
    if misaligned hart.pc
    then fetch_fault (locals hart bus) instr_misaligned
    else let (fetched, bus') = bus_read bus hart.pc 32 in
      elim fetched [
        | none ↦ fetch_fault (locals hart bus') instr_access_fault
        | some instruction ↦ run_word (locals hart bus') instruction
      ]
