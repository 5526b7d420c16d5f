-- ===== src/Probe/Layout.antt =====
-- A definition of the game's frontend (CUIDef) as the probes of tools/re-probe use it: where its
-- id, its type and the three pointers of its child list lie, and how a probe gives it another list.
pub mod Copying
use crossover.Prelude.{ℕ, zero, suc, ◌+◌, ◌-◌, ◌*◌, ◌/◌, List}
use crossover.Probe.Memory.{Memory, dword, dwords, store}

abbrev pub def_id : ℕ
def_id = 0x20

-- DEF_KEY, DEF_ACTION and DEF_ACTION2
abbrev pub def_key : ℕ
def_key = 0x54

abbrev pub def_action : ℕ
def_action = 0xC4

abbrev pub def_action2 : ℕ
def_action2 = 0xE4

abbrev pub quit_button : ℕ
quit_button = 251

abbrev pub quit_ctext : ℕ
quit_ctext = 254

abbrev pub def_child_begin : ℕ
def_child_begin = 0x70

abbrev pub def_child_end : ℕ
def_child_end = 0x74

abbrev pub def_child_cap : ℕ
def_child_cap = 0x78

-- for (k = 0; k < n; k++) nv[k] = f (*(DWORD *)(b + k * 4)), from the k-th round on
unfoldable pub copy_from : (ℕ → ℕ) → (rounds k b nv : ℕ) → Memory → Memory
copy_from f zero k b nv m = m
copy_from f (suc r) k b nv m =
    copy_from f r (k + 1) b nv (store m (nv + k * 4) (f (dword m (b + k * 4))))

abbrev pub child_begin : Memory → ℕ → ℕ
child_begin m def = dword m (def + def_child_begin)

abbrev pub child_end : Memory → ℕ → ℕ
child_end m def = dword m (def + def_child_end)

abbrev pub child_count : Memory → ℕ → ℕ
child_count m def = (child_end m def - child_begin m def) / 4

-- The three pointers of the definition.
unfoldable pub repoint : (def nv end : ℕ) → Memory → Memory
repoint def nv end m =
    store (store (store m (def + def_child_begin) nv) (def + def_child_end) end)
      (def + def_child_cap) end

-- Both action fields.
unfoldable pub set_actions : (def action : ℕ) → Memory → Memory
set_actions def action m = store (store m (def + def_action) action) (def + def_action2) action

-- The definition ids of the children.
abbrev pub children : Memory → ℕ → List ℕ
children m def = dwords m (child_begin m def) (child_count m def)
