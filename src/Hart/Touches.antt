-- ===== src/Hart/Touches.antt =====
-- What a step of src/hart.c does to the bus, against its retirement record.
use rve.Base.{
  ℕ, ◌≡◌, refl, ap, arith, Bool, true, false, Option, none, some, ◌==◌, if◌then◌else◌, ◌⊎◌, inl,
  inr, Bool-cases, if-elim, ◌∙◌, Option-cases, bit_and,
}
use rve.Word.{add32, sext}
use rve.Bus.{Bus, bus_read, bus_write}
use rve.Decoder.Types.{Op, DecodedInstruction, zeroed}
use rve.Decoder.Decode.{rve_decode_instruction}
use rve.Hart.Types.{Hart, Retire, load_access_fault, store_access_fault, illegal_instr, ecall_m}
use rve.Hart.Access.{Locals, misaligned, exec_load, exec_store}
use rve.Hart.Execute.{execute}
use rve.Hart.Refused.{early_trap, execute-trap}
use rve.Hart.Step.{hart_step, run_word, fetch_fault, commit, commit_fault, commit_clean, locals}

-- From the bus after the fetch to the bus after the step.
pub data Touches (bus : Bus) (r : Retire) (trap : Option ℕ) (bus' : Bus) : Type 0 where
  untouched : r.mem_read ≡ false → r.mem_write ≡ false → bus' ≡ bus → Touches bus r trap bus'
  read :
      (val : ℕ)
      → r.mem_read ≡ true
      → r.mem_write ≡ false
      → bus_read bus r.mem_read_addr r.mem_read_size ≡ (some val, bus')
      → trap ≡ none
      → (r.mem_read_value ≡ val) ⊎ (r.mem_read_value ≡ sext val r.mem_read_size)
      → Touches bus r trap bus'
  written :
      r.mem_read ≡ false
      → r.mem_write ≡ true
      → bus_write bus r.mem_write_addr r.mem_write_value r.mem_write_size ≡ (true, bus')
      → trap ≡ none
      → Touches bus r trap bus'
  read_refused :
      (addr size : ℕ)
      → r.mem_read ≡ false
      → r.mem_write ≡ false
      → bus_read bus addr size ≡ (none, bus')
      → trap ≡ some load_access_fault
      → Touches bus r trap bus'
  write_refused :
      (addr val size : ℕ)
      → r.mem_read ≡ false
      → r.mem_write ≡ false
      → bus_write bus addr val size ≡ (false, bus')
      → trap ≡ some store_access_fault
      → Touches bus r trap bus'

exec_load-Touches :
    (s : Locals) (di : DecodedInstruction) (size : ℕ) (sign : Bool)
    → s.r.mem_read ≡ false
    → s.r.mem_write ≡ false
    → let s' = exec_load s di size sign in Touches s.bus s'.r s'.pending_trap s'.bus
unfolding exec_load
exec_load-Touches s di size sign n m = go (bus_read s.bus addr size).0 refl
  where
    addr : ℕ
    addr = add32 (s.hart.gpr di.rs1) (sext di.imm 12)

    extended :
        (b : Bool) (val : ℕ)
        → ((if b then sext val size else val) ≡ val)
          ⊎ ((if b then sext val size else val) ≡ sext val size)
    extended true val = inr refl
    extended false val = inl refl

    bus' : Bus
    bus' = (bus_read s.bus addr size).1

    go :
        (o : Option ℕ)
        → (bus_read s.bus addr size).0 ≡ o
        → let s' = exec_load s di size sign in Touches s.bus s'.r s'.pending_trap s'.bus
    go none e =
        rw (exec_load, e)
          (Touches.read_refused addr size n m (ap (λ (o : Option ℕ). (o, bus')) e) refl)
    go (some val) e =
        rw (exec_load, e)
          (Touches.read val refl m (ap (λ (o : Option ℕ). (o, bus')) e) refl (extended sign val))

exec_store-Touches :
    (s : Locals) (di : DecodedInstruction) (size mask : ℕ)
    → s.r.mem_read ≡ false
    → s.r.mem_write ≡ false
    → let s' = exec_store s di size mask in Touches s.bus s'.r s'.pending_trap s'.bus
unfolding exec_store
exec_store-Touches s di size mask n m = go (bus_write s.bus addr val size) refl
  where
    addr : ℕ
    addr = add32 (s.hart.gpr di.rs1) (sext di.imm 12)

    val : ℕ
    val = bit_and (s.hart.gpr di.rs2) mask

    go :
        (x : Bool × Bus)
        → bus_write s.bus addr val size ≡ x
        → let s' = exec_store s di size mask in Touches s.bus s'.r s'.pending_trap s'.bus
    go (false, bus') e = rw (exec_store, e) (Touches.write_refused addr val size n m e refl)
    go (true, bus') e = rw (exec_store, e) (Touches.written n refl e refl)

execute-Touches :
    (op : Op) (di : DecodedInstruction) (s : Locals)
    → s.r.mem_read ≡ false
    → s.r.mem_write ≡ false
    → let s' = execute op di s in Touches s.bus s'.r s'.pending_trap s'.bus
unfolding execute
execute-Touches Op.lb di s n m = exec_load-Touches s di 8 true n m
execute-Touches Op.lh di s n m = exec_load-Touches s di 16 true n m
execute-Touches Op.lw di s n m = exec_load-Touches s di 32 true n m
execute-Touches Op.lbu di s n m = exec_load-Touches s di 8 false n m
execute-Touches Op.lhu di s n m = exec_load-Touches s di 16 false n m
execute-Touches Op.sb di s n m = exec_store-Touches s di 8 0xFF n m
execute-Touches Op.sh di s n m = exec_store-Touches s di 16 0xFFFF n m
execute-Touches Op.sw di s n m = exec_store-Touches s di 32 0xFFFF_FFFF n m
execute-Touches _ di s n m = Touches.untouched (ground arith) (ground arith) (ground arith)

-- The bus from which an instruction is executed.
abbrev pub fetched_bus : Hart → Bus → Bus
fetched_bus hart bus = if misaligned hart.pc then bus else (bus_read bus hart.pc 32).1

-- The same accesses, in another record.
record Same (r r' : Retire) : Type 0 where
  mem_read : r'.mem_read ≡ r.mem_read
  mem_read_addr : r'.mem_read_addr ≡ r.mem_read_addr
  mem_read_value : r'.mem_read_value ≡ r.mem_read_value
  mem_read_size : r'.mem_read_size ≡ r.mem_read_size
  mem_write : r'.mem_write ≡ r.mem_write
  mem_write_addr : r'.mem_write_addr ≡ r.mem_write_addr
  mem_write_value : r'.mem_write_value ≡ r.mem_write_value
  mem_write_size : r'.mem_write_size ≡ r.mem_write_size

Touches-Same :
    (bus bus' : Bus) (r r' : Retire) (trap : Option ℕ)
    → Same r r'
    → Touches bus r trap bus'
    → Touches bus r' trap bus'
Touches-Same bus bus' r r' trap e (Touches.untouched n m b) =
    Touches.untouched (e.mem_read ∙ n) (e.mem_write ∙ m) b
Touches-Same bus bus' r r' trap e (Touches.read val n m b t v) =
    Touches.read val (e.mem_read ∙ n) (e.mem_write ∙ m) (rw (e.mem_read_addr, e.mem_read_size) b) t
      (rw (e.mem_read_value, e.mem_read_size) v)
Touches-Same bus bus' r r' trap e (Touches.written n m b t) =
    Touches.written (e.mem_read ∙ n) (e.mem_write ∙ m)
      (rw (e.mem_write_addr, e.mem_write_value, e.mem_write_size) b) t
Touches-Same bus bus' r r' trap e (Touches.read_refused addr size n m b t) =
    Touches.read_refused addr size (e.mem_read ∙ n) (e.mem_write ∙ m) b t
Touches-Same bus bus' r r' trap e (Touches.write_refused addr val size n m b t) =
    Touches.write_refused addr val size (e.mem_read ∙ n) (e.mem_write ∙ m) b t

commit-Same : (s : Locals) (di : DecodedInstruction) → Same s.r (commit s di).0
unfolding commit commit_fault commit_clean
commit-Same s di = record {
  mem_read = ground arith;
  mem_read_addr = ground arith;
  mem_read_value = ground arith;
  mem_read_size = ground arith;
  mem_write = ground arith;
  mem_write_addr = ground arith;
  mem_write_value = ground arith;
  mem_write_size = ground arith;
}

commit-Touches :
    (s : Locals) (di : DecodedInstruction) (bus : Bus)
    → s.r.trap ≡ early_trap s.pending_trap
    → Touches bus s.r s.pending_trap s.bus
    → let (r, hart', bus') = commit s di in Touches bus r r.trap bus'
unfolding commit commit_fault commit_clean
commit-Touches s di bus e t =
    rw (trap, same_bus)
      (Touches-Same bus s.bus s.r (commit s di).0 s.pending_trap (commit-Same s di) t)
  where
    trap : (commit s di).0.trap ≡ s.pending_trap
    trap = ground arith

    same_bus : (commit s di).2 ≡ s.bus
    same_bus = ground arith

run_word-Touches :
    (s : Locals) (w : ℕ)
    → s.pending_trap ≡ none
    → s.r.trap ≡ none
    → s.r.mem_read ≡ false
    → s.r.mem_write ≡ false
    → let (r, hart', bus') = run_word s w in Touches s.bus r r.trap bus'
unfolding run_word
run_word-Touches s w p t n m =
    let di = rve_decode_instruction w in
    let r = s.r in
    let s' : Locals = record s { r = record r { instruction = w; di = di } } in
    let s'' : Locals = record s' { pending_trap = some illegal_instr } in
    if-elim (λ (x : Retire × Hart × Bus). Touches s.bus x.0 x.0.trap x.2) di.valid
      (λ v.
        commit-Touches (execute di.op di s') di s.bus (execute-trap di.op di s' p t)
          (execute-Touches di.op di s' n m))
      (λ v. commit-Touches s'' di s.bus t (Touches.untouched n m refl))

-- A fetch that fails.
fetch_fault-Touches :
    (s : Locals) (d : ℕ)
    → s.r.trap ≡ none
    → (d == ecall_m) ≡ false
    → s.r.mem_read ≡ false
    → s.r.mem_write ≡ false
    → let (r, hart', bus') = fetch_fault s d in Touches s.bus r r.trap bus'
unfolding fetch_fault
fetch_fault-Touches s d t e n m =
    let s' : Locals = record s { bad_pc = s.hart.pc; pending_trap = some d } in
    commit-Touches s' zeroed s.bus (ground arith) (Touches.untouched n m refl)

-- The retirement record of a step tells what the step did to the bus after its fetch: with a
-- recorded read or write, the bus is the one that this access leaves, the access succeeded, no
-- trap is reported, and a read gave the recorded value before its sign extension, if there is
-- one; with none recorded, the bus is the same, or a load or store was refused and its access
-- fault is reported.
pub hart_step-Touches :
    (hart : Hart) (bus : Bus)
    → let (r, hart', bus') = hart_step hart bus in Touches (fetched_bus hart bus) r r.trap bus'
unfolding hart_step
hart_step-Touches hart bus = elim (Bool-cases (misaligned hart.pc)) [
  | inl g ↦ rw g (fetch_fault-Touches (locals hart bus) 0 refl refl refl refl)
  | inr g ↦
      let bus' = (bus_read bus hart.pc 32).1 in
      elim (Option-cases (bus_read bus hart.pc 32).0) [
        | inl f ↦ rw (g, f) (fetch_fault-Touches (locals hart bus') 1 refl refl refl refl)
        | inr (w, f) ↦ rw (g, f) (run_word-Touches (locals hart bus') w refl refl refl refl)
      ]
]
