-- ===== src/Probe/Seal.antt =====
-- tools/re-probe/seal.c and console.c: reads that VirtualQuery guards, and the sequence of calls into
-- the game that gives the hero the seal. What the game's functions return is a parameter; the calls
-- that matter are a list. Calls that only serve the log (dump_state) are left out.
pub mod Given
use crossover.Prelude.{
  ℕ, ◌+◌, ◌%◌, ◌/◌, ◌^◌, Bool, true, false, not, ◌&&◌, ◌||◌, List, [], ◌∷◌, ◌++◌, Option, none,
  some, leb, ltb, ◌==◌, if◌then◌else◌,
}
use crossover.Probe.Memory.{Memory, dword, set_byte}
use crossover.Probe.Regions.{Region, mem_commit, page_guard, page_noaccess, protects}

abbrev pub committed : Option Region → Bool
committed none = false
committed (some r) = r.state == mem_commit && not (protects (page_guard + page_noaccess) r)

abbrev pub gsi_vtable : ℕ
gsi_vtable = 0x01260F0C

abbrev pub vt_give_object : ℕ
vt_give_object = 0x1E4

abbrev pub vt_set_hud : ℕ
vt_set_hud = 0x594

abbrev pub hero_menu_flag_off : ℕ
hero_menu_flag_off = 0x38

abbrev pub hero_menu_flag_bit : ℕ
hero_menu_flag_bit = 0x40

-- The calls into the game.
pub data Call : Type 0 where
  charstr_ctor : Call
  charstr_dtor : Call
  name_to_defid : (defmgr : ℕ) → Call
  give_object : (fn : ℕ) → (gsi : ℕ) → Call
  set_hud : (fn : ℕ) → (gsi : ℕ) → Call

module _ (query : ℕ → Option Region) (m : Memory) where
  unfoldable pub readable : ℕ → Bool
  unfolding protects
  readable p = if p == 0 then false else committed (query p)

  unfoldable pub rd : ℕ → ℕ
  unfolding readable
  rd p = if readable p then dword m p else 0

-- The HUD is turned on where its function can be called.
unfoldable pub after_give : (query : ℕ → Option Region) (m : Memory) (vt gsi : ℕ) → List Call
unfolding rd
after_give query m vt gsi =
    if readable query m (rd query m (vt + vt_set_hud))
    then set_hud (rd query m (vt + vt_set_hud)) gsi ∷ []
    else []

module _ (query : ℕ → Option Region) (m : Memory) where
  -- `world_of` and `hero_of` are the game's functions at FN_WORLD_GET and FN_HERO_GET; bit 0 of the
  -- byte at +0x91 marks a hero that is dead.
  unfoldable pub find_hero : (world_of hero_of : ℕ → ℕ) (gsi : ℕ) → ℕ
  unfolding rd
  find_hero world_of hero_of gsi =
      let holder = rd query m (gsi + 0x14) in
      let hero = hero_of (world_of holder) in
      if not (readable query m holder)
      then 0
      else if not (readable query m (world_of holder))
      then 0
      else if not (readable query m hero)
      then 0
      else if m (hero + 0x91) % 2 == 1
      then 0
      else hero

  -- `defid_of` is what FN_NAME_TO_DEFID returns, a signed number: positive if below 2^31 and not 0.
  unfoldable pub resolves : ℕ → Bool
  resolves defid = ltb 0 defid && ltb defid (2 ^ 31)

  -- The memory after the give, which the game has run in, is `later`.
  unfoldable pub give_seal : (later : Memory) (defid_of : ℕ → ℕ) (gsi : ℕ) → List Call × Bool
  unfolding rd after_give resolves
  give_seal later defid_of gsi =
      let vt = rd query m gsi in
      let fn = rd query m (vt + vt_give_object) in
      let defmgr = rd query m (gsi + 0x10) in
      let give = give_object fn gsi ∷ charstr_dtor ∷ after_give query later vt gsi in
      if not (vt == gsi_vtable)
      then ([], false)
      else if not (readable query m fn)
      then ([], false)
      else if readable query m defmgr
      then (if not (resolves (defid_of defmgr))
          then (charstr_ctor ∷ name_to_defid defmgr ∷ charstr_dtor ∷ [], false)
          else (charstr_ctor ∷ name_to_defid defmgr ∷ give, true))
      else (charstr_ctor ∷ give, true)

  -- One round of hold_menu_flag on the hero's byte: its bit is set where it is clear.
  unfoldable pub hold_flag : (hero : ℕ) → Memory
  hold_flag hero =
      let v = m (hero + hero_menu_flag_off) in
      if hero == 0
      then m
      else if not (readable query m (hero + hero_menu_flag_off))
      then m
      else if v / hero_menu_flag_bit % 2 == 1
      then m
      else set_byte m (hero + hero_menu_flag_off) (v + hero_menu_flag_bit)
