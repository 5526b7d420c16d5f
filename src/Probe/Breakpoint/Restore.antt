-- ===== src/Probe/Breakpoint/Restore.antt =====
-- The code byte under the breakpoint: what arming, a hit and disarming leave there.
use crossover.Prelude.{ℕ, ◌≡◌, ◌≢◌, ◌⊎◌, inl, Bool, true, false, List, [], ◌∷◌, arith}
use crossover.Probe.Memory.{set_byte}
use crossover.Probe.Breakpoint.{
  int3, factory_type_read, Hook, Context, Exception, save_byte, arm_bp, disarm_bp, disarm_saved_bp,
  on_breakpoint, bp_handler,
}

-- What happens at the site: the worker arms or disarms, or the game runs into the exception.
pub data Event : Type 0 where
  arms : (protects : Bool) → Event
  disarms : (protects : Bool) → Event
  hit : (exception : Exception) → (context : Context) → (protects : Bool) → Event

module _ {G : Type 0} (edit : ℕ → Hook G → Hook G) where
  unfoldable pub happen : Event → Hook G → Hook G
  happen (arms p) h = (arm_bp p factory_type_read h).0
  happen (disarms p) h = disarm_saved_bp p factory_type_read h
  happen (hit x c p) h = (bp_handler edit (disarm_saved_bp p) x c h).2

  unfoldable pub happen_all : List Event → Hook G → Hook G
  unfolding happen
  happen_all [] h = h
  happen_all (e ∷ es) h = happen_all es (happen e h)

-- The site holds the game's byte or the breakpoint, and a saved byte is the game's.
pub record IsGuarded {G : Type 0} (byte : ℕ) (h : Hook G) : Type 0 where
  pub site :
      (h.mem factory_type_read ≡ byte) ⊎ ((h.mem factory_type_read ≡ int3) × (h.saved ≡ true))
  pub kept : h.saved ≡ true → h.orig ≡ byte

module _ {G : Type 0} (byte : ℕ) (stock : byte ≢ int3) where
  arm_bp-IsGuarded :
      (p : Bool) (h : Hook G) → IsGuarded byte h → IsGuarded byte (arm_bp p factory_type_read h).0
  unfolding arm_bp save_byte set_byte
  arm_bp-IsGuarded p h g = ground (arith, g.kept)

  disarm_saved_bp-IsGuarded :
      (p : Bool) (h : Hook G)
      → IsGuarded byte h
      → IsGuarded byte (disarm_saved_bp p factory_type_read h)
  unfolding disarm_saved_bp set_byte
  disarm_saved_bp-IsGuarded p h g = ground (arith, g.kept)

-- The edit of this definition leaves the site, the saved byte and its flag alone.
abbrev pub Spares : {G : Type 0} → (ℕ → Hook G → Hook G) → ℕ → Hook G → Type 0
Spares edit d h =
    ((edit d h).mem factory_type_read ≡ h.mem factory_type_read)
    × ((edit d h).orig ≡ h.orig)
    × ((edit d h).saved ≡ h.saved)

-- Every edit of a run does.
abbrev pub SparesAll : {G : Type 0} → (ℕ → Hook G → Hook G) → List Event → Hook G → Type 0
SparesAll edit [] h = Unit
SparesAll edit (arms p ∷ es) h = SparesAll edit es (happen edit (arms p) h)
SparesAll edit (disarms p ∷ es) h = SparesAll edit es (happen edit (disarms p) h)
SparesAll edit (hit x c p ∷ es) h =
    Spares edit c.ebx h × SparesAll edit es (happen edit (hit x c p) h)

module _ {G : Type 0} (byte : ℕ) (stock : byte ≢ int3) (edit : ℕ → Hook G → Hook G) where
  on_breakpoint-IsGuarded :
      (p : Bool) (c : Context) (h : Hook G)
      → Spares edit c.ebx h
      → IsGuarded byte h
      → IsGuarded byte (on_breakpoint edit (disarm_saved_bp p) c h).2
  unfolding on_breakpoint
  on_breakpoint-IsGuarded p c h spares g =
      ground (arith, g.kept, disarm_saved_bp-IsGuarded byte stock p h g)

  hit-IsGuarded :
      (x : Exception) (c : Context) (p : Bool) (h : Hook G)
      → Spares edit c.ebx h
      → IsGuarded byte h
      → IsGuarded byte (happen edit (hit x c p) h)
  unfolding happen bp_handler
  hit-IsGuarded x c p h spares g = ground (arith, on_breakpoint-IsGuarded p c h spares g)

  happen_all-IsGuarded :
      (es : List Event) (h : Hook G)
      → SparesAll edit es h
      → IsGuarded byte h
      → IsGuarded byte (happen_all edit es h)
  unfolding happen_all happen
  happen_all-IsGuarded [] h s g = g
  happen_all-IsGuarded (arms p ∷ es) h s g =
      happen_all-IsGuarded es (happen edit (arms p) h) s (arm_bp-IsGuarded byte stock p h g)
  happen_all-IsGuarded (disarms p ∷ es) h s g =
      happen_all-IsGuarded es (happen edit (disarms p) h) s
        (disarm_saved_bp-IsGuarded byte stock p h g)
  happen_all-IsGuarded (hit x c p ∷ es) h s g =
      happen_all-IsGuarded es (happen edit (hit x c p) h) s.1 (hit-IsGuarded x c p h s.0 g)

  -- However often the breakpoint is armed, hit and disarmed, and whether or not VirtualProtect
  -- opens the page each time, a last disarm_bp that may write puts the game's byte back, if that
  -- byte was at the site at the start and is no INT3, nothing was saved yet, and the edits leave
  -- the site and the saved byte alone. This is the disarm_bp that asks whether a byte is saved.
  pub disarm-happen_all :
      (es : List Event) (h : Hook G)
      → SparesAll edit es h
      → h.mem factory_type_read ≡ byte
      → h.saved ≡ false
      → (disarm_saved_bp true factory_type_read (happen_all edit es h)).mem factory_type_read ≡ byte
  unfolding disarm_saved_bp set_byte
  disarm-happen_all es h spares site fresh =
      let g : IsGuarded byte h = record { site = inl site; kept = λ e. cc } in
      let last : IsGuarded byte (happen_all edit es h) = happen_all-IsGuarded es h spares g in
      ground (arith, last.site, last.kept)

-- If another debugger's INT3 is at the site when the probe arms, so that nothing is saved,
-- disarm_bp of menu-append.c writes its unset byte over the site, while the disarm_bp of the other
-- probes leaves the INT3 there. VirtualProtect opens the page.
pub disarm_bp-arm_bp_foreign :
    {G : Type 0} (h : Hook G)
    → h.mem factory_type_read ≡ int3
    → h.saved ≡ false
    → ((disarm_bp true factory_type_read (arm_bp true factory_type_read h).0).mem factory_type_read
        ≡ h.orig)
      × ((disarm_saved_bp true factory_type_read (arm_bp true factory_type_read h).0).mem
            factory_type_read
          ≡ int3)
unfolding disarm_bp disarm_saved_bp arm_bp set_byte
disarm_bp-arm_bp_foreign h site fresh = ground arith
