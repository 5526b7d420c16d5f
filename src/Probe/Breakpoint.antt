-- ===== src/Probe/Breakpoint.antt =====
-- The breakpoint of menu-append.c, menu-swap.c, page-mods.c and menu-inspect.c in tools/re-probe:
-- an INT3 over the game's `mov eax,[ebx+0x3C]`, and the handler that performs the instruction.
-- The four files have one handler, which differs in what it does with a definition, `edit`.
-- Whether VirtualProtect opens the page is a parameter of each call.
pub mod Restore
pub mod Emulate
use crossover.Prelude.{ℕ, ◌+◌, Bool, true, false, not, ◌||◌, ◌==◌, if◌then◌else◌}
use crossover.Probe.Memory.{Memory, set_byte, dword, plausible}

abbrev pub int3 : ℕ
int3 = 0xCC

-- FACTORY_TYPE_READ and FACTORY_TYPE_LEN
abbrev pub factory_type_read : ℕ
factory_type_read = 0x0041D249

abbrev pub factory_type_len : ℕ
factory_type_len = 3

-- DEF_TYPE
abbrev pub def_type : ℕ
def_type = 0x3C

-- EXCEPTION_BREAKPOINT
abbrev pub exception_breakpoint : ℕ
exception_breakpoint = 0x80000003

-- The memory, `g_orig`, `g_saved`, and the globals of one probe.
pub record Hook (G : Type 0) : Type 0 where
  pub mem : Memory
  pub orig : ℕ
  pub saved : Bool
  pub own : G

-- The registers that the handler reads or writes.
pub record Context : Type 0 where
  pub eax : ℕ
  pub ebx : ℕ
  pub eip : ℕ

pub record Exception : Type 0 where
  pub code : ℕ
  pub address : ℕ

pub data Disposition : Type 0 where
  continue_search : Disposition
  continue_execution : Disposition

-- *orig = cur; *saved = 1, the first time
unfoldable pub save_byte : {G : Type 0} → ℕ → Hook G → Hook G
save_byte cur h = if h.saved then h else record h { orig = cur; saved = true }

unfoldable pub arm_bp : {G : Type 0} → Bool → ℕ → Hook G → Hook G × Bool
unfolding save_byte
arm_bp protects site h =
    let cur = h.mem site in
    if cur == int3
    then (h, true)
    else let h' = save_byte cur h in
      if protects then (record h' { mem = set_byte h'.mem site int3 }, true) else (h', false)

-- disarm_bp of menu-append.c
unfoldable pub disarm_bp : {G : Type 0} → Bool → ℕ → Hook G → Hook G
disarm_bp protects site h = if protects then record h { mem = set_byte h.mem site h.orig } else h

-- disarm_bp of the other three
unfoldable pub disarm_saved_bp : {G : Type 0} → Bool → ℕ → Hook G → Hook G
disarm_saved_bp protects site h =
    if not h.saved then h else if protects then record h { mem = set_byte h.mem site h.orig } else h

module _ {G : Type 0} (edit : ℕ → Hook G → Hook G) (disarm : ℕ → Hook G → Hook G) where
  -- What follows once the exception is known to be ours.
  unfoldable pub on_breakpoint : Context → Hook G → Disposition × Context × Hook G
  on_breakpoint c h =
      if not (plausible c.ebx)
      then (continue_execution, record c { eip = factory_type_read }, disarm factory_type_read h)
      else let h' = edit c.ebx h in
        (
          continue_execution,
          record c {
            eax = dword h'.mem (c.ebx + def_type);
            eip = factory_type_read + factory_type_len;
          },
          h',
        )

  unfoldable pub bp_handler : Exception → Context → Hook G → Disposition × Context × Hook G
  unfolding on_breakpoint
  bp_handler x c h =
      if not (x.code == exception_breakpoint) || not (x.address == factory_type_read)
      then (continue_search, c, h)
      else on_breakpoint c h
