-- ===== src/Main/RoundTrip.antt =====
-- `parse_args` of src/main.c against a printer of command lines.
use Prim.Native.String.{String}
use rve.Base.{
  ℕ, ◌%◌, ◌^◌, ◌≡◌, ◌<◌, refl, ap, sym, ◌∙◌, arith, Bool, true, false, none, some, List, [], ◌∷◌,
  ◌++◌, if-false,
}
use rve.Word.{IsWord}
use rve.Text.{Bytes, codes, same_text, decimal, hex_upper, pad_left}
use rve.Text.Number.{strtoul, strtoul-hex, strtoul-decimal}
use rve.Main.CommandLine.{
  Args, Parsed, accepted, plain, unknown, kind, starts_with_dash, parse_loop, parse_args,
}

-- A word as `main` prints it, with `0x%08X`.
abbrev pub hex_word : ℕ → Bytes
hex_word w = codes "0x" ++ pad_left b'0' 8 (hex_upper w)

abbrev pub flag : Bool → Bytes → List Bytes
flag true name = name ∷ []
flag false name = []

-- The arguments that ask for these settings.
abbrev pub print_args : Bytes → Args → Bytes → List Bytes
print_args argv0 a binary =
    argv0
      ∷ codes "--pc"
      ∷ hex_word a.reset_pc
      ∷ codes "--load"
      ∷ hex_word a.load_addr
      ∷ codes "--max"
      ∷ decimal a.max_steps
      ∷ flag a.trace (codes "--trace")
    ++ flag a.dump_regs (codes "--regs")
    ++ binary ∷ []

same_text-dash : (arg t : Bytes) → starts_with_dash arg ≡ false → same_text arg (b'-' ∷ t) ≡ false
unfolding same_text starts_with_dash
same_text-dash [] t h = refl
same_text-dash (c ∷ s) t h = ground arith

kind-plain : (arg : Bytes) → starts_with_dash arg ≡ false → kind arg ≡ plain
unfolding kind
kind-plain arg h =
    if-false _ (dash "-help")
    ∙ (if-false _ (dash "-trace")
        ∙ (if-false _ (dash "-regs")
            ∙ (if-false _ (dash "-pc")
                ∙ (if-false _ (dash "-load") ∙ (if-false _ (dash "-max") ∙ if-false unknown h)))))
  where
    dash : (t : String) → same_text arg (b'-' ∷ codes t) ≡ false
    dash t = same_text-dash arg (codes t) h

-- The settings before the flags and the file name are read.
abbrev numbers : ℕ → ℕ → ℕ → Args
numbers x y n = record {
  binary = none;
  reset_pc = x;
  load_addr = y;
  max_steps = n;
  trace = false;
  dump_regs = false;
}

parse_loop-flags :
    (t r : Bool) (x y n : ℕ) (binary : Bytes)
    → starts_with_dash binary ≡ false
    → parse_loop
        (flag t (codes "--trace") ++ flag r (codes "--regs") ++ binary ∷ [])
        none
        (numbers x y n)
      ≡ accepted (record (numbers x y n) { binary = some binary; trace = t; dump_regs = r })
unfolding parse_loop kind same_text
parse_loop-flags true true x y n binary d = rw (parse_loop, kind-plain binary d) refl
parse_loop-flags true false x y n binary d = rw (parse_loop, kind-plain binary d) refl
parse_loop-flags false true x y n binary d = rw (parse_loop, kind-plain binary d) refl
parse_loop-flags false false x y n binary d = rw (parse_loop, kind-plain binary d) refl

read_word : (w : ℕ) → IsWord w → strtoul 16 (hex_word w) % 2 ^ 32 ≡ w
read_word w h = ap (λ n. n % 2 ^ 32) (strtoul-hex w (omega arith)) ∙ omega arith

-- If settings have words as their addresses, a limit below 2^64 and a file name that does not
-- start with a dash, `parse_args` accepts the command line that asks for them, with the words in
-- the form 0x%08X and the limit in decimal, and returns these settings.
pub parse_args-print_args :
    (argv0 binary : Bytes) (a : Args)
    → a.binary ≡ some binary
    → starts_with_dash binary ≡ false
    → IsWord a.reset_pc
    → IsWord a.load_addr
    → a.max_steps < 2 ^ 64
    → parse_args (print_args argv0 a binary) ≡ accepted a
unfolding parse_args parse_loop kind same_text
parse_args-print_args argv0 binary a b d p l m =
    let rest = flag a.trace (codes "--trace") ++ flag a.dump_regs (codes "--regs") ++ binary ∷ [] in
    let end : ℕ → ℕ → ℕ → Parsed = λ x y n. parse_loop rest none (numbers x y n) in
    ap (λ x. end x (strtoul 16 (hex_word a.load_addr) % 2 ^ 32) (strtoul 10 (decimal a.max_steps)))
      (read_word a.reset_pc p)
    ∙ (ap (λ y. end a.reset_pc y (strtoul 10 (decimal a.max_steps))) (read_word a.load_addr l)
        ∙ (ap (end a.reset_pc a.load_addr) (strtoul-decimal a.max_steps m)
            ∙ (parse_loop-flags a.trace a.dump_regs a.reset_pc a.load_addr a.max_steps binary d
                ∙ ap (λ o. accepted (record a { binary = o })) (sym b))))
