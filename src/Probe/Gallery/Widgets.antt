-- ===== src/Probe/Gallery/Widgets.antt =====
-- The list that page-gallery.c in tools/re-probe gives to the page.
use mathlib.Core.Path.{ap₂}
use crossover.Prelude.{
  ℕ, ◌+◌, ◌*◌, ◌^◌, ◌≤◌, ◌<◌, ◌≡◌, ◌⊎◌, inl, refl, sym, ◌∙◌, false, List, [], ◌∷◌, map, length, All,
  arith,
}
use crossover.Probe.Memory.{
  Memory, dword, dwords, store, Apart, dword-store, dword_same, dwords_same, store_outside,
}
use crossover.Probe.Breakpoint.{Hook}
use crossover.Probe.Layout.{
  def_id, def_child_begin, def_child_cap, child_begin, child_end, child_count, children, repoint,
}
use crossover.Probe.Layout.Copying.{repoint_begin, repoint_end, repoint_cap, repoint_outside}
use crossover.Probe.Page.{page_list}
use crossover.Probe.Gallery.{
  Widget, widgets, gallery_n, Gallery, store_ids, gallery_menu_text, gallery_menu_action,
  gallery_title, gallery_list, gallery_rows, gallery_with, edit_gallery,
}

abbrev ids : List Widget → List ℕ
ids = map λ w. w.id

store_ids_outside :
    (p : ℕ) (ws : List Widget) (m : Memory) (x : ℕ)
    → (x < p) ⊎ (p + 4 * length ws ≤ x)
    → store_ids p ws m x ≡ m x
unfolding store_ids
store_ids_outside p [] m x h = refl
store_ids_outside p (w ∷ ws) m x h =
    ground (arith, store_ids_outside (p + 4) ws (store m p w.id) x, store_outside m p w.id x)

dwords-store_ids :
    (p : ℕ) (ws : List Widget) (m : Memory)
    → All (λ w. w.id < 2 ^ 32) ws
    → dwords (store_ids p ws m) p (length ws) ≡ ids ws
unfolding store_ids dwords
dwords-store_ids p [] m h = refl
dwords-store_ids p (w ∷ ws) m h =
    ap₂ ◌∷◌
      (dword_same (store m p w.id) (store_ids (p + 4) ws (store m p w.id)) p
          (λ x a b. store_ids_outside (p + 4) ws (store m p w.id) x (inl b))
        ∙ dword-store m p w.id h.0)
      (dwords-store_ids (p + 4) ws (store m p w.id) h.1)

-- The definition of the page's list, not edited yet, and the probe's rows elsewhere in memory.
pub record IsStock (def : ℕ) (h : Hook Gallery) : Type 0 where
  pub list_id : dword h.mem (def + def_id) ≡ page_list
  pub stock : h.own.did_list ≡ false
  pub rows : h.own.rows + 24 < 2 ^ 32
  pub rows_apart : Apart def 0x7C h.own.rows 24

module _ (def : ℕ) (h : Hook Gallery) (w : IsStock def h) where
  abbrev with_ids : Memory
  with_ids = store_ids h.own.rows widgets h.mem

  abbrev after : Memory
  after = repoint def h.own.rows (h.own.rows + gallery_n * 4) with_ids

  gallery_mem : (edit_gallery def h).mem ≡ after
  unfolding edit_gallery gallery_with gallery_menu_text gallery_menu_action gallery_title
      gallery_list gallery_rows
  gallery_mem = ground (arith, w.list_id, w.stock)

  small : h.own.rows < 2 ^ 32
  small = omega (arith, w.rows)

  end_small : h.own.rows + gallery_n * 4 < 2 ^ 32
  end_small = omega (arith, w.rows)

  begin' : child_begin after def ≡ h.own.rows
  begin' = repoint_begin with_ids def h.own.rows (h.own.rows + gallery_n * 4) small end_small

  end' : child_end after def ≡ h.own.rows + gallery_n * 4
  end' = repoint_end with_ids def h.own.rows (h.own.rows + gallery_n * 4) small end_small

  count' : child_count after def ≡ 6
  count' = omega (arith, begin', end')

  list' : dwords after h.own.rows 6 ≡ ids widgets
  list' =
      dwords_same with_ids after h.own.rows 6 (λ x p q.
        repoint_outside with_ids def h.own.rows (h.own.rows + gallery_n * 4) small end_small x
          (ground (arith, w.rows_apart)))
      ∙ dwords-store_ids h.own.rows widgets h.mem (
        omega arith,
        (omega arith, (omega arith, (omega arith, (omega arith, (omega arith, tt))))),
      )

  outside :
      (x : ℕ)
      → (x < h.own.rows) ⊎ (h.own.rows + 24 ≤ x)
      → (x < def + def_child_begin) ⊎ (def + def_child_cap + 4 ≤ x)
      → after x ≡ h.mem x
  outside x p q =
      repoint_outside with_ids def h.own.rows (h.own.rows + gallery_n * 4) small end_small x
        (ground (arith))
      ∙ store_ids_outside h.own.rows widgets h.mem x (ground arith)

  -- The page's list has the six widgets; nothing else in memory changes.
  pub children-edit_gallery :
      let m = (edit_gallery def h).mem in
      (children m def ≡ ids widgets)
      × (dword m (def + def_child_cap) ≡ child_end m def)
      × ((x : ℕ)
          → (x < h.own.rows) ⊎ (h.own.rows + 24 ≤ x)
          → (x < def + def_child_begin) ⊎ (def + def_child_cap + 4 ≤ x)
          → m x ≡ h.mem x)
  children-edit_gallery = rw gallery_mem (
    ap₂ (dwords after) begin' count' ∙ list',
    repoint_cap with_ids def h.own.rows (h.own.rows + gallery_n * 4) small end_small ∙ sym end',
    outside,
  )
