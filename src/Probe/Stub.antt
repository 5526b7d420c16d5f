-- ===== src/Probe/Stub.antt =====
-- The trampoline of tools/re-probe/ui-probe.c: the bytes that build_stub emits, and the jump that
-- install_inline_hook writes over the game's two instructions.
pub mod Runs
use crossover.Prelude.{
  ℕ, ◌+◌, ◌-◌, ◌%◌, ◌^◌, Bool, true, false, List, [], ◌∷◌, ◌++◌, Option, none, some, if◌then◌else◌,
  ◌==◌,
}
use crossover.Wire.Bytes.{le_bytes}
use crossover.Probe.Memory.{Memory, write_bytes, set_byte, store}

abbrev pub hook_site : ℕ
hook_site = 0x0041D249

abbrev pub hook_resume : ℕ
hook_resume = 0x0041D24F

-- build_stub, for the address of on_definition
unfoldable pub stub_bytes : ℕ → List ℕ
unfolding le_bytes
stub_bytes on_definition =
    0x60
    ∷ 0x9C
    ∷ 0x53
    ∷ 0xB8
    ∷ (le_bytes 4 on_definition
        ++ (0xFF
            ∷ 0xD0
            ∷ 0x83
            ∷ 0xC4
            ∷ 0x04
            ∷ 0x9D
            ∷ 0x61
            ∷ 0x8B
            ∷ 0x43
            ∷ 0x3C
            ∷ 0x83
            ∷ 0xF8
            ∷ 0x2B
            ∷ 0x68
            ∷ (le_bytes 4 hook_resume ++ 0xC3 ∷ [])))

-- rel = stub - (HOOK_SITE + 5), in 32 bits
unfoldable pub jump_offset : ℕ → ℕ
jump_offset stub = (stub + 2 ^ 32 - (hook_site + 5)) % 2 ^ 32

-- The writes of install_inline_hook, where there is a stub and the page can be opened.
unfoldable pub install_inline_hook : (stub : Option ℕ) (opens : Bool) → Memory → Memory × Bool
unfolding set_byte store jump_offset
install_inline_hook none opens m = (m, false)
install_inline_hook (some stub) opens m =
    if opens
    then (
      set_byte (store (set_byte m hook_site 0xE9) (hook_site + 1) (jump_offset stub))
          (hook_site + 5) 0x90,
      true,
    )
    else (m, false)
