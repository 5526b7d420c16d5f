-- ===== src/Probe/Page/Rows.antt =====
-- The list that page-mods.c in tools/re-probe cuts to one row, and that each edit is made once.
use mathlib.Core.Path.{ap₂}
use crossover.Prelude.{
  ℕ, ◌+◌, ◌^◌, ◌≤◌, ◌<◌, ◌≡◌, ◌≢◌, ◌⊎◌, ap, sym, ◌∙◌, true, false, [], ◌∷◌, arith,
}
use crossover.Probe.Memory.{
  Memory, dword, dwords, store, plausible, Apart, dword-store, dword_same, store_outside,
}
use crossover.Probe.Breakpoint.{Hook}
use crossover.Probe.Layout.{
  def_id, def_child_begin, def_child_cap, child_begin, child_end, child_count, children, repoint,
}
use crossover.Probe.Layout.Copying.{repoint_begin, repoint_end, repoint_cap, repoint_outside}
use crossover.Probe.Page.{
  page_list, page_row, Page, edit_menu_text, edit_menu_action, edit_title, edit_list,
  learn_row_text, edit_row_text, edit_row_action, edit_with, edit_page,
}

-- The definition of the page's list, not yet cut, and the probe's row elsewhere in memory.
pub record IsUncut (def : ℕ) (h : Hook Page) : Type 0 where
  pub list_id : dword h.mem (def + def_id) ≡ page_list
  pub no_text : h.own.row_text_id ≢ page_list
  pub uncut : h.own.did_list ≡ false
  pub list_real : plausible (child_begin h.mem def) ≡ true
  pub list_some : child_begin h.mem def < child_end h.mem def
  pub rows : h.own.rows + 16 < 2 ^ 32
  pub rows_apart : Apart def 0x7C h.own.rows 16

module _ (def : ℕ) (h : Hook Page) (w : IsUncut def h) where
  abbrev with_row : Memory
  with_row = store h.mem h.own.rows page_row

  abbrev after : Memory
  after = repoint def h.own.rows (h.own.rows + 4) with_row

  cut_mem : (edit_page def h).mem ≡ after
  unfolding edit_page edit_with edit_menu_text edit_menu_action edit_title edit_list learn_row_text
      edit_row_text edit_row_action
  cut_mem = ground (arith, w.list_id, w.no_text, w.uncut, w.list_real, w.list_some)

  rows_small : h.own.rows < 2 ^ 32
  rows_small = omega (arith, w.rows)

  end_small : h.own.rows + 4 < 2 ^ 32
  end_small = omega (arith, w.rows)

  begin' : child_begin after def ≡ h.own.rows
  begin' = repoint_begin with_row def h.own.rows (h.own.rows + 4) rows_small end_small

  end' : child_end after def ≡ h.own.rows + 4
  end' = repoint_end with_row def h.own.rows (h.own.rows + 4) rows_small end_small

  count' : child_count after def ≡ 1
  count' = omega (arith, begin', end')

  row' : dword after h.own.rows ≡ page_row
  row' =
      dword_same with_row after h.own.rows (λ x p q.
        repoint_outside with_row def h.own.rows (h.own.rows + 4) rows_small end_small x
          (ground (arith, w.rows_apart)))
      ∙ dword-store h.mem h.own.rows page_row (omega arith)

  list' : dwords after h.own.rows 1 ≡ page_row ∷ []
  unfolding dwords
  list' = ap (λ x. x ∷ []) row'

  outside :
      (x : ℕ)
      → (x < h.own.rows) ⊎ (h.own.rows + 4 ≤ x)
      → (x < def + def_child_begin) ⊎ (def + def_child_cap + 4 ≤ x)
      → after x ≡ h.mem x
  outside x p q = ground (
    arith,
    repoint_outside with_row def h.own.rows (h.own.rows + 4) rows_small end_small x,
    store_outside h.mem h.own.rows page_row x,
  )

  -- The list is cut to the one row; nothing else in memory changes.
  pub children-edit_page :
      let m = (edit_page def h).mem in
      (children m def ≡ page_row ∷ [])
      × (dword m (def + def_child_cap) ≡ child_end m def)
      × ((x : ℕ)
          → (x < h.own.rows) ⊎ (h.own.rows + 4 ≤ x)
          → (x < def + def_child_begin) ⊎ (def + def_child_cap + 4 ≤ x)
          → m x ≡ h.mem x)
  children-edit_page = rw cut_mem (
    ap₂ (dwords after) begin' count' ∙ list',
    repoint_cap with_row def h.own.rows (h.own.rows + 4) rows_small end_small ∙ sym end',
    outside,
  )
