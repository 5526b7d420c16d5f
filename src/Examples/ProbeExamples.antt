-- ===== src/Examples/ProbeExamples.antt =====
-- Concrete memories for the properties of the probes.
use crossover.Prelude.{
  ℕ, ◌+◌, ◌*◌, ◌≤◌, ◌<◌, ◌≡◌, ◌≢◌, ◌⊎◌, inl, inr, refl, true, false, List, [], ◌∷◌, ◌++◌, some,
  contains, arith,
}
use crossover.Probe.Memory.{Memory, IsMemory, dword, store, set_byte, store-IsMemory, plausible}
use crossover.Probe.Breakpoint.{
  Hook, Context, Exception, def_type, exception_breakpoint, factory_type_read, int3,
  continue_execution, bp_handler, arm_bp, disarm_bp, disarm_saved_bp,
}
use crossover.Probe.Breakpoint.Emulate.{run_mov, uncovered, IsCovered, bp_handler-run_mov}
use crossover.Probe.Breakpoint.Restore.{
  Event, arms, disarms, hit, happen_all, SparesAll, disarm-happen_all, disarm_bp-arm_bp_foreign,
}
use crossover.Probe.Layout.{def_id, def_child_cap, child_end, children}
use crossover.Probe.Append.{Pool, extends, extend_screen, in_pool, pool_elems}
use crossover.Probe.Append.Extended.{IsLaidOut, last_child, children-extend_screen}
use crossover.Probe.Append.Once.{IsSpread, IsOnce, extend_each, extend_each-IsOnce}
use crossover.Probe.Edits.{type_button}
use crossover.Probe.Inspect.{CapDef, Inspect, no_inspect, menu_ids, capture_hook, cap_by_id}
use crossover.Probe.Inspect.Captured.{capture_each, cap_by_id-capture_each}

-- Nothing but zeros.
abbrev blank : Memory
blank = λ a. 0

blank-IsMemory : IsMemory blank
blank-IsMemory a = omega arith

-- A screen at 0x500000 with the children 11 and 22.
abbrev screen : Memory
screen =
    store
      (store (store (store (store (store blank 0x600000 11) 0x600004 22) 0x500020 99) 0x50003C 0x0A)
        0x500070 0x600000)
      0x500074 0x600008

screen-IsMemory : IsMemory screen
screen-IsMemory = store-IsMemory _ 0x500074 0x600008 (
    store-IsMemory _ 0x500070 0x600000 (
      store-IsMemory _ 0x50003C 0x0A (
        store-IsMemory _ 0x500020 99
          (store-IsMemory _ 0x600004 22 (store-IsMemory _ 0x600000 11 blank-IsMemory)))))

abbrev fresh_pool : Hook Pool
fresh_pool = record {
  mem = screen;
  orig = 0;
  saved = false;
  own = record { base = 0x700000; next = 0; seen = [] };
}

screen-IsLaidOut : IsLaidOut 0x500000 fresh_pool
unfolding dword store
screen-IsLaidOut = record {
  bytes = screen-IsMemory;
  pool = omega arith;
  def_apart = inl (omega arith);
  list_apart = inl (omega arith);
}

screen_extends : extends 0x500000 fresh_pool ≡ true
unfolding extends dword store plausible in_pool
screen_extends = refl

children-extend_screen_example :
    let m = (extend_screen 0x500000 fresh_pool).mem in
    (children m 0x500000 ≡ children screen 0x500000 ++ last_child screen 0x500000 ∷ [])
    × (dword m (0x500000 + def_child_cap) ≡ child_end m 0x500000)
    × ((x : ℕ)
        → (x < 0x700000) ⊎ (0x700000 + pool_elems * 4 ≤ x)
        → (x < 0x500000 + 0x70) ⊎ (0x500000 + def_child_cap + 4 ≤ x)
        → m x ≡ screen x)
children-extend_screen_example =
    children-extend_screen 0x500000 fresh_pool screen-IsLaidOut screen_extends

real_button : plausible 0x500000 ≡ true
unfolding plausible
real_button = refl

one_screen : IsSpread (0x500000 ∷ []) 0x700000
one_screen = record {
  pool = omega arith;
  off_pool = λ d c. ground arith;
  off_defs = λ d e c c'. inl (ground arith);
}

extend_each-IsOnce_example :
    IsOnce (0x500000 ∷ []) 0x700000 (extend_each (0x500000 ∷ 0x500000 ∷ []) fresh_pool)
extend_each-IsOnce_example =
    extend_each-IsOnce (0x500000 ∷ []) 0x700000 one_screen (0x500000 ∷ 0x500000 ∷ []) fresh_pool
      (refl, (refl, tt)) refl

-- The screen's memory with the game's code under the breakpoint.
abbrev covered : Hook Pool
covered = record fresh_pool {
  mem = set_byte (set_byte (set_byte screen 0x41D249 0xCC) 0x41D24A 0x43) 0x41D24B 0x3C;
}

laid-IsCovered : IsCovered covered.mem 0x500000
unfolding set_byte
laid-IsCovered = record { second = refl; third = refl; apart = inr (omega arith) }

abbrev at_screen : Context
at_screen = record { eax = 5; ebx = 0x500000; eip = 0x41D249 }

same_type :
    dword (extend_screen 0x500000 covered).mem (0x500000 + def_type)
    ≡ dword covered.mem (0x500000 + def_type)
unfolding extend_screen set_byte dword store plausible
same_type = refl

abbrev trap : Exception
trap = record { code = exception_breakpoint; address = factory_type_read }

bp_handler-run_mov_example :
    let (d, c', h') = bp_handler extend_screen (disarm_bp true) trap at_screen covered in
    (d ≡ continue_execution)
    × (run_mov (uncovered covered.mem) at_screen ≡ some c')
    × (h' ≡ extend_screen 0x500000 covered)
bp_handler-run_mov_example =
    bp_handler-run_mov extend_screen (disarm_bp true) at_screen covered refl real_button
      laid-IsCovered same_type

-- A button at 0x500000 with the id of Options.
abbrev button : Memory
button = set_byte (store (store blank 0x500020 266) 0x50003C 0x0B) 0x41D249 0x8B

abbrev fresh_inspect : Hook Inspect
fresh_inspect = record { mem = button; orig = 0; saved = false; own = no_inspect }

button_site : button factory_type_read ≡ 0x8B
unfolding set_byte
button_site = refl

type_of_button : dword button (0x500000 + def_type) ≡ type_button
unfolding dword store set_byte
type_of_button = refl

id_of_button : contains menu_ids (dword button (0x500000 + def_id)) ≡ true
unfolding dword store set_byte
id_of_button = refl

stock : ◌≢◌ {A = ℕ} 0x8B int3
stock e = ground arith

abbrev schedule : List Event
schedule = arms true ∷ hit trap at_screen true ∷ disarms false ∷ arms true ∷ []

schedule_spares : SparesAll capture_hook schedule fresh_inspect
unfolding capture_hook
schedule_spares = ((refl, refl, refl), tt)

disarm-happen_all_example :
    (disarm_saved_bp true factory_type_read (happen_all capture_hook schedule fresh_inspect)).mem
      factory_type_read
    ≡ 0x8B
disarm-happen_all_example =
    disarm-happen_all 0x8B stock capture_hook schedule fresh_inspect schedule_spares button_site
      refl

cap_by_id-capture_each_example :
    (c : CapDef) × (cap_by_id
        (dword button (0x500000 + def_id))
        (capture_each button ((7 ∷ 0x400000 ∷ []) ++ 0x500000 ∷ 0x500000 ∷ []) no_inspect)
      ≡ some c)
    × (c.id ≡ dword button (0x500000 + def_id))
    × (c.type ≡ type_button)
cap_by_id-capture_each_example =
    cap_by_id-capture_each button (7 ∷ 0x400000 ∷ []) (0x500000 ∷ []) 0x500000 real_button
      type_of_button id_of_button

-- A breakpoint of somebody else's at the site.
abbrev foreign : Hook Pool
foreign = record fresh_pool { mem = set_byte screen 0x41D249 0xCC }

foreign_site : foreign.mem factory_type_read ≡ int3
unfolding set_byte
foreign_site = refl

disarm_bp-arm_bp_foreign_example :
    ((disarm_bp true factory_type_read (arm_bp true factory_type_read foreign).0).mem
        factory_type_read
      ≡ 0)
    × ((disarm_saved_bp true factory_type_read (arm_bp true factory_type_read foreign).0).mem
          factory_type_read
        ≡ int3)
disarm_bp-arm_bp_foreign_example = disarm_bp-arm_bp_foreign foreign foreign_site refl
