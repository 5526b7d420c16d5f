-- ===== src/Probe/Stub/Runs.antt =====
-- The processor at the trampoline.
use crossover.Prelude.{
  ℕ, zero, suc, ◌+◌, ◌/◌, ◌%◌, ◌^◌, ◌<◌, ◌≤◌, ◌≡◌, ◌⊎◌, refl, ap, true, List, [], ◌∷◌, ◌++◌, Option,
  none, some, if◌then◌else◌, ◌==◌, arith, length, drop,
}
use crossover.Wire.Bytes.{le_bytes, word, word-le_bytes}
use crossover.Probe.Memory.{Memory, dword, set_byte, store}
use crossover.Probe.Breakpoint.{def_type}
use crossover.Probe.Stub.{hook_site, hook_resume, stub_bytes, jump_offset, install_inline_hook}

-- The instructions that occur in the trampoline.
pub data Instruction : Type 0 where
  pushad : Instruction
  pushfd : Instruction
  push_ebx : Instruction
  mov_eax : (imm : ℕ) → Instruction
  call_eax : Instruction
  add_esp : (imm : ℕ) → Instruction
  popfd : Instruction
  popad : Instruction
  load_eax : (offset : ℕ) → Instruction
  cmp_eax : (imm : ℕ) → Instruction
  push_imm : (imm : ℕ) → Instruction
  ret : Instruction

-- The second and third byte of the longer encodings.
decode_ff : List ℕ → Option (Instruction × List ℕ)
decode_ff (b ∷ bs) = if b == 0xD0 then some (call_eax, bs) else none
decode_ff [] = none

decode_83 : List ℕ → Option (Instruction × List ℕ)
decode_83 (b ∷ i ∷ bs) =
    if b == 0xC4 then some (add_esp i, bs) else if b == 0xF8 then some (cmp_eax i, bs) else none
decode_83 bs = none

decode_8b : List ℕ → Option (Instruction × List ℕ)
decode_8b (b ∷ d ∷ bs) = if b == 0x43 then some (load_eax d, bs) else none
decode_8b bs = none

decode_imm : (ℕ → Instruction) → List ℕ → Option (Instruction × List ℕ)
decode_imm i (a ∷ b ∷ c ∷ d ∷ bs) = some (i (word (a ∷ b ∷ c ∷ d ∷ [])), bs)
decode_imm i bs = none

-- An instruction by its first byte.
decode_op : ℕ → List ℕ → Option (Instruction × List ℕ)
unfolding decode_ff decode_83 decode_8b decode_imm
decode_op b bs =
    if b == 0x60
    then some (pushad, bs)
    else if b == 0x9C
    then some (pushfd, bs)
    else if b == 0x53
    then some (push_ebx, bs)
    else if b == 0xB8
    then decode_imm mov_eax bs
    else if b == 0xFF
    then decode_ff bs
    else if b == 0x83
    then decode_83 bs
    else if b == 0x9D
    then some (popfd, bs)
    else if b == 0x61
    then some (popad, bs)
    else if b == 0x8B
    then decode_8b bs
    else if b == 0x68
    then decode_imm push_imm bs
    else if b == 0xC3
    then some (ret, bs)
    else none

-- The registers, the stack from its top, where a `ret` led, and the calls with their argument.
pub record Cpu : Type 0 where
  pub eax : ℕ
  pub ecx : ℕ
  pub edx : ℕ
  pub ebx : ℕ
  pub ebp : ℕ
  pub esi : ℕ
  pub edi : ℕ
  pub flags : ℕ
  pub stack : List ℕ
  pub eip : Option ℕ
  pub calls : List (ℕ × ℕ)

-- What on_definition, a cdecl function, may leave in the registers that it need not save; and the
-- flags after a comparison.
module _ (m : Memory) (c_eax c_ecx c_edx c_flags : ℕ) (cmp : ℕ → ℕ → ℕ) where
  call : List ℕ → Cpu → Option Cpu
  call [] c = none
  call (argument ∷ s) c = some (record c {
    eax = c_eax;
    ecx = c_ecx;
    edx = c_edx;
    flags = c_flags;
    calls = c.calls ++ (c.eax, argument) ∷ [];
  })

  pop_all : List ℕ → Cpu → Option Cpu
  pop_all (edi ∷ esi ∷ ebp ∷ esp ∷ ebx ∷ edx ∷ ecx ∷ eax ∷ s) c = some (record c {
    eax = eax;
    ecx = ecx;
    edx = edx;
    ebx = ebx;
    ebp = ebp;
    esi = esi;
    edi = edi;
    stack = s;
  })
  pop_all s c = none

  pop_flags : List ℕ → Cpu → Option Cpu
  pop_flags [] c = none
  pop_flags (f ∷ s) c = some (record c { flags = f; stack = s })

  return : List ℕ → Cpu → Option Cpu
  return [] c = none
  return (a ∷ s) c = some (record c { stack = s; eip = some a })

  exec : Instruction → Cpu → Option Cpu
  unfolding call pop_all pop_flags return
  exec pushad c = some (record c {
    stack = c.edi ∷ c.esi ∷ c.ebp ∷ length c.stack ∷ c.ebx ∷ c.edx ∷ c.ecx ∷ c.eax ∷ c.stack;
  })
  exec pushfd c = some (record c { stack = c.flags ∷ c.stack })
  exec push_ebx c = some (record c { stack = c.ebx ∷ c.stack })
  exec (mov_eax imm) c = some (record c { eax = imm })
  exec call_eax c = call c.stack c
  exec (add_esp imm) c = some (record c { stack = drop (imm / 4) c.stack })
  exec popfd c = pop_flags c.stack c
  exec popad c = pop_all c.stack c
  exec (load_eax offset) c = some (record c { eax = dword m (c.ebx + offset) })
  exec (cmp_eax imm) c = some (record c { flags = cmp c.eax imm })
  exec (push_imm imm) c = some (record c { stack = imm ∷ c.stack })
  exec ret c = return c.stack c

  -- An instruction, then what follows it.
  andthen : Option Cpu → (Cpu → Option Cpu) → Option Cpu
  andthen none k = none
  andthen (some c) k = k c

  decoded : Option (Instruction × List ℕ) → (List ℕ → Cpu → Option Cpu) → Cpu → Option Cpu
  unfolding andthen exec
  decoded none k c = none
  decoded (some (i, bs)) k c = andthen (exec i c) (k bs)

  -- Straight-line code, up to its end; no instruction is shorter than a byte.
  unfoldable pub run : ℕ → List ℕ → Cpu → Option Cpu
  unfolding decoded decode_op
  run zero bs c = none
  run (suc n) [] c = some c
  run (suc n) (b ∷ bs) c = decoded (decode_op b bs) (run n) c

  -- The two instructions that the trampoline stands for, and the way back to the game.
  abbrev pub after_both : Cpu → Cpu
  after_both c =
      let type = dword m (c.ebx + def_type) in
      record c { eax = type; flags = cmp type 0x2B; eip = some hook_resume }

  -- The bytes that build_stub emits, run by the processor, call on_definition once with the
  -- definition in ebx as its argument, and then have the effect of the two instructions of the
  -- game that the jump overwrote: eax is the type, the flags are those of the comparison with
  -- 0x2B, every other register and the stack are as before, and the game goes on behind them. The
  -- address of on_definition has 32 bits; the call may change eax, ecx, edx and the flags.
  pub run-stub_bytes :
      (on_definition : ℕ) (c : Cpu)
      → on_definition < 2 ^ 32
      → run 20 (stub_bytes on_definition) c
        ≡ some (record (after_both c) { calls = c.calls ++ (on_definition, c.ebx) ∷ [] })
  unfolding run stub_bytes le_bytes word
  run-stub_bytes on_definition c h =
      ap (λ f. some (record (after_both c) { calls = c.calls ++ (f, c.ebx) ∷ [] }))
        (word-le_bytes 4 on_definition h)

-- The jump leads to the stub, wherever it lies.
pub install_inline_hook-jump :
    (stub : ℕ) (m : Memory)
    → stub < 2 ^ 32
    → let m' = (install_inline_hook (some stub) true m).0 in
      (m' hook_site ≡ 0xE9)
      × ((hook_site + 5 + dword m' (hook_site + 1)) % 2 ^ 32 ≡ stub)
      × (m' (hook_site + 5) ≡ 0x90)
      × ((x : ℕ) → (x < hook_site) ⊎ (hook_resume ≤ x) → m' x ≡ m x)
unfolding install_inline_hook set_byte store dword jump_offset
install_inline_hook-jump stub m h = (refl, ground arith, refl, λ x o. ground arith)
