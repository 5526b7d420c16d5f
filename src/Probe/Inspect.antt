-- ===== src/Probe/Inspect.antt =====
-- tools/re-probe/menu-inspect.c: the definitions that the probe captures, with a reserved slot for
-- each of the six buttons of the main menu. An empty slot has the definition 0. `g_menu` is a list,
-- in the order of MENU_IDS; `g_caps` is the list of its first `g_caps_n` entries.
pub mod Reserved
pub mod Captured
use crossover.Prelude.{
  ℕ, zero, suc, ◌+◌, ◌-◌, ◌*◌, ◌/◌, ◌%◌, Bool, true, false, not, ◌&&◌, ◌||◌, List, [], ◌∷◌, ◌++◌,
  map, Option, none, some, leb, ltb, ◌==◌, if◌then◌else◌, length,
}
use crossover.Probe.Memory.{Memory, dword, dwords, read_bytes, plausible}
use crossover.Probe.Breakpoint.{Hook, def_type}
use crossover.Probe.Layout.{def_id, child_begin, child_end, child_count}
use crossover.Probe.Edits.{type_button}

abbrev pub def_states : ℕ
def_states = 0x40

abbrev pub def_states_end : ℕ
def_states_end = 0x44

abbrev pub state_size : ℕ
state_size = 0x7C

abbrev pub type_list : ℕ
type_list = 0x0C

abbrev pub type_text : ℕ
type_text = 0x06

abbrev pub menu_ids : List ℕ
menu_ids = 262 ∷ 247 ∷ 266 ∷ 280 ∷ 255 ∷ 251 ∷ []

abbrev pub def_dump : ℕ
def_dump = 0x200

abbrev pub max_states : ℕ
max_states = 8

abbrev pub max_caps : ℕ
max_caps = 160

pub record CapDef : Type 0 where
  pub def : ℕ
  pub id : ℕ
  pub type : ℕ
  pub raw : List ℕ
  pub states : List (List ℕ)
  pub kids : List ℕ

-- A slot of the zeroed arrays; `nstates` and `nkids` are the lengths of the lists.
abbrev pub no_cap : CapDef
no_cap = record { def = 0; id = 0; type = 0; raw = []; states = []; kids = [] }

pub record Inspect : Type 0 where
  pub menu : List CapDef
  pub have : ℕ
  pub caps : List CapDef

abbrev pub no_inspect : Inspect
no_inspect = record {
  menu = no_cap ∷ no_cap ∷ no_cap ∷ no_cap ∷ no_cap ∷ no_cap ∷ [];
  have = 0;
  caps = [];
}

-- The dumps of `n` states from the one at `b` on.
unfoldable pub read_states : Memory → ℕ → ℕ → List (List ℕ)
read_states m b zero = []
read_states m b (suc n) = read_bytes m b state_size ∷ read_states m (b + state_size) n

unfoldable pub states_of : Memory → ℕ → List (List ℕ) → List (List ℕ)
unfolding read_states
states_of m def old =
    let b = dword m (def + def_states) in
    let e = dword m (def + def_states_end) in
    let n = (e - b) / state_size in
    if plausible b && (ltb b e && (e - b) % state_size == 0)
    then read_states m b (if ltb max_states n then max_states else n)
    else old

unfoldable pub kids_of : Memory → ℕ → List ℕ → List ℕ
kids_of m def old =
    let b = child_begin m def in
    let e = child_end m def in
    if plausible b && (ltb b e && leb (e - b) (16 * 4)) then dwords m b (child_count m def) else old

-- What is copied into a slot.
unfoldable pub fill : Memory → ℕ → CapDef → CapDef
unfolding states_of kids_of
fill m def c = record {
  def = def;
  id = dword m (def + def_id);
  type = dword m (def + def_type);
  raw = read_bytes m def def_dump;
  states = states_of m def c.states;
  kids = kids_of m def c.kids;
}

-- The search through the reserved slots: none for this id, one that is full, or one just filled.
pub data Place : Type 0 where
  no_slot : Place
  taken : Place
  placed : (menu : List CapDef) → Place

abbrev pub behind : CapDef → Place → Place
behind c no_slot = no_slot
behind c taken = taken
behind c (placed menu) = placed (c ∷ menu)

unfoldable pub place : Memory → ℕ → ℕ → List ℕ → List CapDef → Place
unfolding fill
place m def id [] menu = no_slot
place m def id (i ∷ ids) [] = no_slot
place m def id (i ∷ ids) (c ∷ menu) =
    if id == i
    then if c.def == 0 then placed (fill m def c ∷ menu) else taken
    else behind c (place m def id ids menu)

unfoldable pub has_def : ℕ → List CapDef → Bool
has_def def [] = false
has_def def (c ∷ cs) = c.def == def || has_def def cs

-- The shared pool, for a definition without a reserved slot.
unfoldable pub capture_shared : Memory → ℕ → ℕ → Inspect → Inspect
unfolding fill has_def
capture_shared m def type s =
    if not (type == type_button) && (not (type == type_list) && not (type == type_text))
    then s
    else if has_def def s.caps
    then s
    else if leb max_caps (length s.caps)
    then s
    else record s { caps = s.caps ++ fill m def no_cap ∷ [] }

unfoldable pub capture_placed : Memory → ℕ → ℕ → Inspect → Place → Inspect
unfolding capture_shared
capture_placed m def type s no_slot = capture_shared m def type s
capture_placed m def type s taken = s
capture_placed m def type s (placed menu) = record s { menu = menu; have = s.have + 1 }

unfoldable pub capture : ℕ → Memory → Inspect → Inspect
unfolding capture_placed place
capture def m s =
    let type = dword m (def + def_type) in
    let id = dword m (def + def_id) in
    if not (plausible def)
    then s
    else capture_placed m def type s
        (if type == type_button then place m def id menu_ids s.menu else no_slot)

unfoldable pub capture_hook : ℕ → Hook Inspect → Hook Inspect
unfolding capture
capture_hook def h = record h { own = capture def h.mem h.own }

-- cap_by_id: the reserved slots that are full, then the pool.
unfoldable pub full_by_id : ℕ → List CapDef → Option CapDef
full_by_id id [] = none
full_by_id id (c ∷ cs) = if not (c.def == 0) && c.id == id then some c else full_by_id id cs

unfoldable pub first_by_id : ℕ → List CapDef → Option CapDef
first_by_id id [] = none
first_by_id id (c ∷ cs) = if c.id == id then some c else first_by_id id cs

abbrev pub or_else : Option CapDef → Option CapDef → Option CapDef
or_else (some c) o = some c
or_else none o = o

unfoldable pub cap_by_id : ℕ → Inspect → Option CapDef
unfolding full_by_id first_by_id
cap_by_id id s = or_else (full_by_id id s.menu) (first_by_id id s.caps)
