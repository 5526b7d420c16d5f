-- ===== src/Probe/Append/Extended.antt =====
-- What extend_screen does to a definition: its child list, and that it is extended only once.
use crossover.Prelude.{
  ℕ, suc, ◌+◌, ◌-◌, ◌*◌, ◌^◌, ◌≤◌, ◌<◌, ◌≡◌, ◌⊎◌, inl, inr, ap, sym, ◌∙◌, true, false, [], ◌∷◌,
  ◌++◌, ◌==◌, length, arith, Bool-cases,
}
use mathlib.Core.Path.{ap₂}
use crossover.Probe.Memory.{Memory, IsMemory, dword, dwords, plausible, Apart, dwords_same}
use crossover.Probe.Layout.{
  def_child_begin, def_child_cap, child_begin, child_end, child_count, children, repoint,
}
use crossover.Probe.Layout.Copying.{repoint_begin, repoint_end, repoint_cap, repoint_outside}
use crossover.Probe.Breakpoint.{Hook}
use crossover.Probe.Append.{
  pool_slots, pool_elems, pool_bytes, max_defs, Pool, in_pool, extends, slot, fill_slot, extend,
  extend_screen,
}
use crossover.Probe.Append.Children.{dwords-fill_slot, fill_slot_outside}

abbrev pub last_child : Memory → ℕ → ℕ
last_child m def = dword m (child_begin m def + 4 * (child_count m def - 1))

-- Where the pool, a definition and its list lie: in the address space, and apart.
pub record IsLaidOut (def : ℕ) (h : Hook Pool) : Type 0 where
  pub bytes : IsMemory h.mem
  pub pool : h.own.base + pool_bytes < 2 ^ 32
  pub def_apart : Apart def 0x7C h.own.base pool_bytes
  pub list_apart : Apart (child_begin h.mem def) (4 * child_count h.mem def) h.own.base pool_bytes

-- What the guards have established.
pub record IsPassed (def : ℕ) (h : Hook Pool) : Type 0 where
  pub count : 0 < child_count h.mem def
  pub small : child_count h.mem def + 1 < pool_elems
  pub room : h.own.next < pool_slots
  pub record_room : length h.own.seen < max_defs
  pub allocated : (h.own.base == 0) ≡ false
  pub real : plausible def ≡ true

pub extends-IsPassed : (def : ℕ) (h : Hook Pool) → extends def h ≡ true → IsPassed def h
unfolding extends
extends-IsPassed def h e = ground arith

pub extend_screen_idle : (def : ℕ) (h : Hook Pool) → extends def h ≡ false → extend_screen def h ≡ h
unfolding extend_screen
extend_screen_idle def h e = ground arith

module _ (def : ℕ) (h : Hook Pool) (w : IsLaidOut def h) (go : extends def h ≡ true) where
  passed : IsPassed def h
  passed = extends-IsPassed def h go

  abbrev count' : ℕ
  count' = child_count h.mem def

  abbrev nv : ℕ
  nv = slot h.own

  abbrev filled : Memory
  filled = fill_slot nv (child_begin h.mem def) count' h.mem

  abbrev after : Memory
  after = repoint def nv (nv + (count' + 1) * 4) filled

  nv_small : nv < 2 ^ 32
  nv_small = omega (arith, w.pool, passed.room)

  end_small : nv + (count' + 1) * 4 < 2 ^ 32
  end_small = omega (arith, w.pool, passed.room, passed.small)

  begin' : child_begin after def ≡ nv
  begin' = repoint_begin filled def nv (nv + (count' + 1) * 4) nv_small end_small

  end' : child_end after def ≡ nv + (count' + 1) * 4
  end' = repoint_end filled def nv (nv + (count' + 1) * 4) nv_small end_small

  count_after : child_count after def ≡ suc count'
  count_after = omega (arith, begin', end')

  list_after : dwords after nv (suc count') ≡ children h.mem def ++ last_child h.mem def ∷ []
  list_after =
      dwords_same filled after nv (suc count') (λ x p q.
        repoint_outside filled def nv (nv + (count' + 1) * 4) nv_small end_small x
          (ground (arith, w.def_apart, passed.room, passed.small)))
      ∙ dwords-fill_slot h.mem nv (child_begin h.mem def) count' w.bytes
          (ground (arith, w.list_apart, passed.room, passed.small)) passed.count

  children-after : children after def ≡ children h.mem def ++ last_child h.mem def ∷ []
  children-after = ap₂ (dwords after) begin' count_after ∙ list_after

  written_after :
      (x : ℕ)
      → (x < nv) ⊎ (nv + pool_elems * 4 ≤ x)
      → (x < def + def_child_begin) ⊎ (def + def_child_cap + 4 ≤ x)
      → after x ≡ h.mem x
  written_after x p q = ground (
    arith,
    repoint_outside filled def nv (nv + (count' + 1) * 4) nv_small end_small x,
    fill_slot_outside nv (child_begin h.mem def) count' h.mem x,
    passed.small,
  )

  mem_after : (extend_screen def h).mem ≡ after
  unfolding extend_screen extend
  mem_after = ground arith

  -- If none of its guards returns, extend_screen gives the definition the list of its children
  -- with the last one once more, full to its capacity, and changes no byte outside the slot of the
  -- pool and the three pointers of the definition. Every byte is below 256, the pool ends below 2
  -- ^ 32, and the definition's first 0x7C bytes and its list lie outside the pool.
  pub children-extend_screen :
      let m = (extend_screen def h).mem in
      (children m def ≡ children h.mem def ++ last_child h.mem def ∷ [])
      × (dword m (def + def_child_cap) ≡ child_end m def)
      × ((x : ℕ)
          → (x < nv) ⊎ (nv + pool_elems * 4 ≤ x)
          → (x < def + def_child_begin) ⊎ (def + def_child_cap + 4 ≤ x)
          → m x ≡ h.mem x)
  children-extend_screen = rw mem_after (
    children-after,
    repoint_cap filled def nv (nv + (count' + 1) * 4) nv_small end_small ∙ sym end',
    written_after,
  )

  already : extends def (extend_screen def h) ≡ false
  unfolding extends in_pool extend_screen extend
  already = ground (arith, begin', passed.room)

-- A second hit on a definition changes nothing.
pub extend_screen-extend_screen :
    (def : ℕ) (h : Hook Pool)
    → IsLaidOut def h
    → extend_screen def (extend_screen def h) ≡ extend_screen def h
extend_screen-extend_screen def h w = elim (Bool-cases (extends def h)) [
  | inl go ↦ extend_screen_idle def (extend_screen def h) (already def h w go)
  | inr no_go ↦ ap (extend_screen def) (extend_screen_idle def h no_go)
]
