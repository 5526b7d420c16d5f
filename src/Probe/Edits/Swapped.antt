-- ===== src/Probe/Edits/Swapped.antt =====
-- What the edits of the menu probes change, and that each changes it once.
use mathlib.Core.Path.{ap₂}
use crossover.Prelude.{ℕ, ◌+◌, ◌*◌, ◌^◌, ◌≤◌, ◌<◌, ◌≡◌, ◌⊎◌, sym, ◌∙◌, true, map, arith}
use crossover.Probe.Memory.{Memory, IsMemory, dword, dwords, Apart, dwords_same}
use crossover.Probe.Breakpoint.{Hook}
use crossover.Probe.Layout.{
  def_child_begin, def_child_cap, copy_from, child_begin, child_end, child_count, children, repoint,
}
use crossover.Probe.Layout.Copying.{
  copy_from_outside, dwords-copy, repoint_begin, repoint_end, repoint_cap, repoint_outside,
}
use crossover.Probe.Edits.{Swap, swapped_id, swaps, swap, swap_child}

swapped_id_word : (v : ℕ) → v < 2 ^ 32 → swapped_id v < 2 ^ 32
unfolding swapped_id
swapped_id_word v h = ground arith

-- The eight words of g_slot lie in the address space, apart from the definition and from its list.
pub record IsSlotted (def : ℕ) (h : Hook Swap) : Type 0 where
  pub bytes : IsMemory h.mem
  pub slot : h.own.slot + 32 < 2 ^ 32
  pub def_apart : Apart def 0x7C h.own.slot 32
  pub list_apart : Apart (child_begin h.mem def) (4 * child_count h.mem def) h.own.slot 32

module _ (def : ℕ) (h : Hook Swap) (w : IsSlotted def h) (go : swaps def h ≡ true) where
  abbrev n : ℕ
  n = child_count h.mem def

  abbrev nv : ℕ
  nv = h.own.slot

  abbrev copied : Memory
  copied = copy_from swapped_id n 0 (child_begin h.mem def) nv h.mem

  abbrev after : Memory
  after = repoint def nv (nv + n * 4) copied

  fits : n ≤ 8
  unfolding swaps
  fits = ground arith

  nv_small : nv < 2 ^ 32
  nv_small = omega (arith, w.slot)

  end_small : nv + n * 4 < 2 ^ 32
  end_small = omega (arith, w.slot, fits)

  begin' : child_begin after def ≡ nv
  begin' = repoint_begin copied def nv (nv + n * 4) nv_small end_small

  end' : child_end after def ≡ nv + n * 4
  end' = repoint_end copied def nv (nv + n * 4) nv_small end_small

  count' : child_count after def ≡ n
  count' = omega (arith, begin', end')

  list' : dwords after nv n ≡ map swapped_id (children h.mem def)
  list' =
      dwords_same copied after nv n (λ x p q.
        repoint_outside copied def nv (nv + n * 4) nv_small end_small x
          (ground (arith, w.def_apart, fits)))
      ∙ dwords-copy swapped_id swapped_id_word h.mem nv (child_begin h.mem def) n w.bytes
          (ground (arith, w.list_apart, fits))

  outside :
      (x : ℕ)
      → (x < nv) ⊎ (nv + 32 ≤ x)
      → (x < def + def_child_begin) ⊎ (def + def_child_cap + 4 ≤ x)
      → after x ≡ h.mem x
  outside x p q = ground (
    arith,
    repoint_outside copied def nv (nv + n * 4) nv_small end_small x,
    copy_from_outside swapped_id n 0 (child_begin h.mem def) nv h.mem x,
    fits,
  )

  mem' : (swap_child def h).mem ≡ after
  unfolding swap_child swap
  mem' = ground arith

  -- The children with the one id exchanged; nothing else in memory changes.
  pub children-swap_child :
      let m = (swap_child def h).mem in
      (children m def ≡ map swapped_id (children h.mem def))
      × (dword m (def + def_child_cap) ≡ child_end m def)
      × ((x : ℕ)
          → (x < nv) ⊎ (nv + 32 ≤ x)
          → (x < def + def_child_begin) ⊎ (def + def_child_cap + 4 ≤ x)
          → m x ≡ h.mem x)
  children-swap_child = rw mem' (
    ap₂ (dwords after) begin' count' ∙ list',
    repoint_cap copied def nv (nv + n * 4) nv_small end_small ∙ sym end',
    outside,
  )

  pub swap_child-swap_child : (e : ℕ) → swap_child e (swap_child def h) ≡ swap_child def h
  unfolding swap_child swap swaps
  swap_child-swap_child e = ground arith
