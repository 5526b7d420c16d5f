-- ===== src/Probe/Breakpoint/Emulate.antt =====
-- The handler of the breakpoint against the instruction that the breakpoint covers.
use crossover.Prelude.{ℕ, ◌+◌, ◌≡◌, true, Option, none, some, ◌&&◌, ◌==◌, if◌then◌else◌, arith}
use crossover.Probe.Memory.{Memory, set_byte, dword, plausible, Apart}
use crossover.Probe.Breakpoint.{
  factory_type_read, def_type, exception_breakpoint, Hook, Context, Exception, continue_execution,
  on_breakpoint, bp_handler,
}

-- The processor at `mov eax,[ebx+d]`, bytes 8B 43 d, d below 128.
unfoldable pub run_mov : Memory → Context → Option Context
run_mov m c =
    if m c.eip == 0x8B && m (c.eip + 1) == 0x43
    then some (record c { eax = dword m (c.ebx + m (c.eip + 2)); eip = c.eip + 3 })
    else none

-- The memory with the game's own byte in place of the breakpoint.
abbrev pub uncovered : Memory → Memory
uncovered m = set_byte m factory_type_read 0x8B

-- The site holds the covered instruction, and the definition lies elsewhere.
pub record IsCovered (m : Memory) (ebx : ℕ) : Type 0 where
  pub second : m (factory_type_read + 1) ≡ 0x43
  pub third : m (factory_type_read + 2) ≡ def_type
  pub apart : Apart (ebx + def_type) 4 factory_type_read 1

module _ {G : Type 0} (edit : ℕ → Hook G → Hook G) (disarm : ℕ → Hook G → Hook G) where
  -- On its own breakpoint, with a plausible definition in ebx, the handler resumes the game with
  -- the registers that the processor would have after the covered instruction on the memory as it
  -- was; beyond that it only makes its edit. The instruction behind the breakpoint is mov
  -- eax,[ebx+0x3C], the type field lies elsewhere, and the edit leaves that field as it is.
  pub bp_handler-run_mov :
      (c : Context) (h : Hook G)
      → c.eip ≡ factory_type_read
      → plausible c.ebx ≡ true
      → IsCovered h.mem c.ebx
      → dword (edit c.ebx h).mem (c.ebx + def_type) ≡ dword h.mem (c.ebx + def_type)
      → let x : Exception = record { code = exception_breakpoint; address = factory_type_read } in
        let (d, c', h') = bp_handler edit disarm x c h in
        (d ≡ continue_execution) × (run_mov (uncovered h.mem) c ≡ some c') × (h' ≡ edit c.ebx h)
  unfolding bp_handler on_breakpoint run_mov set_byte dword
  bp_handler-run_mov c h e p g same = ground (arith, g.apart, g.second, g.third)
