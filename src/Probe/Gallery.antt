-- ===== src/Probe/Gallery.antt =====
-- tools/re-probe/page-gallery.c: the page's list is given one widget of each kind. A float is its
-- pattern of 32 bits. LAYOUT is 0 in the source.
pub mod Widgets
use crossover.Prelude.{
  ℕ, zero, suc, ◌+◌, ◌-◌, ◌*◌, ◌/◌, Bool, true, false, not, ◌&&◌, ◌||◌, List, [], ◌∷◌, ltb, ◌==◌,
  if◌then◌else◌, contains,
}
use crossover.Probe.Memory.{Memory, dword, store}
use crossover.Probe.Memory.{plausible}
use crossover.Probe.Breakpoint.{Hook, def_type}
use crossover.Probe.Layout.{def_id, quit_button, quit_ctext, repoint, set_actions}
use crossover.Probe.Inspect.{def_states, def_states_end, state_size}
use crossover.Probe.Page.{action_open_page, page_title, page_list, menu_label, set_key}

-- `Widgets`
abbrev pub title_text : List ℕ
title_text = b'W' ∷ b'i' ∷ b'd' ∷ b'g' ∷ b'e' ∷ b't' ∷ b's' ∷ []

abbrev pub state_y : ℕ
state_y = 0x4C

-- GALLERY_N
abbrev pub gallery_n : ℕ
gallery_n = 6

abbrev pub layout : Bool
layout = false

-- GALLERY and ROW_Y: an id and the pattern of the float where its row lies.
pub record Widget : Type 0 where
  pub id : ℕ
  pub row_y : ℕ

abbrev pub widgets : List Widget
widgets =
    record { id = 347; row_y = 0 }
    ∷ record { id = 494; row_y = 0x41F00000 }
    ∷ record { id = 478; row_y = 0x42700000 }
    ∷ record { id = 622; row_y = 0x42B40000 }
    ∷ record { id = 317; row_y = 0x42F00000 }
    ∷ record { id = 354; row_y = 0x43160000 }
    ∷ []

-- g_seen and g_type of one id of the gallery.
pub record Built : Type 0 where
  pub widget : ℕ
  pub type : ℕ

-- `rows` is the address of g_rows; `built` has the entries that g_seen marks, the last first.
pub record Gallery : Type 0 where
  pub rows : ℕ
  pub did_menu_text : Bool
  pub did_menu_action : Bool
  pub did_title : Bool
  pub did_list : Bool
  pub built : List Built

-- for (k = 0; k < n; k++) memcpy(b + k * STATE_SIZE + STATE_Y, &y, 4)
unfoldable pub set_states : (rounds p y : ℕ) → Memory → Memory
set_states zero p y m = m
set_states (suc n) p y m = set_states n (p + state_size) y (store m (p + state_y) y)

unfoldable pub set_row : (def y : ℕ) → Memory → Memory
unfolding set_states
set_row def y m =
    let b = dword m (def + def_states) in
    let e = dword m (def + def_states_end) in
    let n = (e - b) / state_size in
    if not layout
    then m
    else if not (plausible b) || not (ltb b e)
    then m
    else if ltb 16 n
    then m
    else set_states n b y m

-- for (i = 0; i < GALLERY_N; i++) g_rows[i] = GALLERY[i]
unfoldable pub store_ids : (p : ℕ) → List Widget → Memory → Memory
store_ids p [] m = m
store_ids p (w ∷ ws) m = store_ids (p + 4) ws (store m p w.id)

unfoldable pub seen_widget : ℕ → List Built → Bool
seen_widget id [] = false
seen_widget id (b ∷ bs) = b.widget == id || seen_widget id bs

module _ (def id : ℕ) where
  unfoldable pub gallery_menu_text : Hook Gallery → Hook Gallery
  unfolding set_key
  gallery_menu_text h =
      if id == quit_ctext && not h.own.did_menu_text
      then (let (m, ok) = set_key def menu_label h.mem in
          record h { mem = m; own = record h.own { did_menu_text = ok } })
      else h

  unfoldable pub gallery_menu_action : Hook Gallery → Hook Gallery
  unfolding set_actions
  gallery_menu_action h =
      if id == quit_button && not h.own.did_menu_action
      then record h {
        mem = set_actions def action_open_page h.mem;
        own = record h.own { did_menu_action = true };
      }
      else h

  unfoldable pub gallery_title : Hook Gallery → Hook Gallery
  unfolding set_key
  gallery_title h =
      if id == page_title && not h.own.did_title
      then (let (m, ok) = set_key def title_text h.mem in
          record h { mem = m; own = record h.own { did_title = ok } })
      else h

  unfoldable pub gallery_list : Hook Gallery → Hook Gallery
  unfolding repoint store_ids
  gallery_list h =
      if id == page_list && not h.own.did_list
      then record h {
        mem =
            repoint def h.own.rows (h.own.rows + gallery_n * 4)
              (store_ids h.own.rows widgets h.mem);
        own = record h.own { did_list = true };
      }
      else h

  -- The loop over the gallery: a widget that is built is noted once, and put on its row.
  unfoldable pub gallery_rows : List Widget → Hook Gallery → Hook Gallery
  unfolding seen_widget set_row
  gallery_rows [] h = h
  gallery_rows (w ∷ ws) h = gallery_rows ws (
      if not (id == w.id) || seen_widget w.id h.own.built then h else record h {
        mem = set_row def w.row_y h.mem;
        own = record h.own {
          built = record { widget = w.id; type = dword h.mem (def + def_type) } ∷ h.own.built;
        };
      })

  unfoldable pub gallery_with : Hook Gallery → Hook Gallery
  unfolding gallery_menu_text gallery_menu_action gallery_title gallery_list gallery_rows
  gallery_with h =
      gallery_rows widgets
        (gallery_list (gallery_title (gallery_menu_action (gallery_menu_text h))))

unfoldable pub edit_gallery : ℕ → Hook Gallery → Hook Gallery
unfolding gallery_with
edit_gallery def h = gallery_with def (dword h.mem (def + def_id)) h
