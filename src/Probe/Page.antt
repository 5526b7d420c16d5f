-- ===== src/Probe/Page.antt =====
-- tools/re-probe/page-mods.c: a row of the main menu is made to open a page whose list is cut to
-- one row of the probe's own. Six edits, each made once, in the order of the code.
pub mod Learned
pub mod Rows
use crossover.Prelude.{
  ℕ, suc, ◌+◌, ◌-◌, ◌*◌, ◌/◌, Bool, true, false, not, ◌&&◌, ◌||◌, List, [], ◌∷◌, ltb, ◌==◌,
  if◌then◌else◌,
}
use crossover.Probe.Memory.{Memory, dword, store, write_bytes, wide, plausible}
use crossover.Probe.Breakpoint.{Hook, def_type}
use crossover.Probe.Layout.{
  def_id, def_key, def_action, def_action2, quit_button, quit_ctext, child_begin, child_end,
  child_count, repoint, set_actions,
}

abbrev pub action_open_page : ℕ
action_open_page = 297

abbrev pub page_title : ℕ
page_title = 338

abbrev pub page_list : ℕ
page_list = 219

abbrev pub page_row : ℕ
page_row = 347

abbrev pub page_row_mid : ℕ
page_row_mid = 348

-- `Mods`, twice, and `No mods loaded`.
abbrev pub menu_label : List ℕ
menu_label = b'M' ∷ b'o' ∷ b'd' ∷ b's' ∷ []

abbrev pub page_title_text : List ℕ
page_title_text = b'M' ∷ b'o' ∷ b'd' ∷ b's' ∷ []

abbrev pub row_label : List ℕ
row_label =
    b'N' ∷ b'o' ∷ b' ' ∷ b'm' ∷ b'o' ∷ b'd' ∷ b's' ∷ b' ' ∷ b'l' ∷ b'o' ∷ b'a' ∷ b'd' ∷ b'e' ∷ b'd'
    ∷ []

-- `rows` is the address of g_rows.
pub record Page : Type 0 where
  pub rows : ℕ
  pub row_text_id : ℕ
  pub did_menu_text : Bool
  pub did_menu_action : Bool
  pub did_title : Bool
  pub did_list : Bool
  pub did_row_text : Bool
  pub did_row_action : Bool
  pub old_action : ℕ
  pub list_n : ℕ

-- The memory after set_key, and what it returns.
unfoldable pub set_key : ℕ → List ℕ → Memory → Memory × Bool
unfolding write_bytes wide
set_key def text m =
    let strobj = dword m (def + def_key) in
    if not (plausible strobj)
    then (m, false)
    else if not (plausible (dword m strobj))
    then (m, false)
    else (write_bytes m (dword m strobj) (wide text), true)

module _ (def id : ℕ) where
  unfoldable pub edit_menu_text : Hook Page → Hook Page
  unfolding set_key
  edit_menu_text h =
      if id == quit_ctext && not h.own.did_menu_text
      then (let (m, ok) = set_key def menu_label h.mem in
          record h { mem = m; own = record h.own { did_menu_text = ok } })
      else h

  unfoldable pub edit_menu_action : Hook Page → Hook Page
  unfolding set_actions
  edit_menu_action h =
      if id == quit_button && not h.own.did_menu_action
      then record h {
        mem = set_actions def action_open_page h.mem;
        own = record h.own { old_action = dword h.mem (def + def_action); did_menu_action = true };
      }
      else h

  unfoldable pub edit_title : Hook Page → Hook Page
  unfolding set_key
  edit_title h =
      if id == page_title && not h.own.did_title
      then (let (m, ok) = set_key def page_title_text h.mem in
          record h { mem = m; own = record h.own { did_title = ok } })
      else h

  unfoldable pub edit_list : Hook Page → Hook Page
  unfolding repoint
  edit_list h =
      if (id == page_list && not h.own.did_list)
        && (plausible (child_begin h.mem def) && ltb (child_begin h.mem def) (child_end h.mem def))
      then record h {
        mem = repoint def h.own.rows (h.own.rows + 4) (store h.mem h.own.rows page_row);
        own = record h.own { list_n = child_count h.mem def; did_list = true };
      }
      else h

  unfoldable pub learn_row_text : Hook Page → Hook Page
  learn_row_text h =
      if (id == page_row_mid && h.own.row_text_id == 0)
        && (plausible (child_begin h.mem def) && ltb (child_begin h.mem def) (child_end h.mem def))
      then record h { own = record h.own { row_text_id = dword h.mem (child_begin h.mem def) } }
      else h

  unfoldable pub edit_row_text : Hook Page → Hook Page
  unfolding set_key
  edit_row_text h =
      if (not (h.own.row_text_id == 0) && id == h.own.row_text_id)
        && (not h.own.did_row_text && dword h.mem (def + def_type) == 6)
      then (let (m, ok) = set_key def row_label h.mem in
          record h { mem = m; own = record h.own { did_row_text = ok } })
      else h

  unfoldable pub edit_row_action : Hook Page → Hook Page
  unfolding set_actions
  edit_row_action h =
      if id == page_row && not h.own.did_row_action
      then record h {
        mem = set_actions def action_open_page h.mem;
        own = record h.own { did_row_action = true };
      }
      else h

  unfoldable pub edit_with : Hook Page → Hook Page
  unfolding edit_menu_text edit_menu_action edit_title edit_list learn_row_text edit_row_text
      edit_row_action
  edit_with h = edit_row_action (
      edit_row_text (learn_row_text (edit_list (edit_title (edit_menu_action (edit_menu_text h))))))

unfoldable pub edit_page : ℕ → Hook Page → Hook Page
unfolding edit_with
edit_page def h = edit_with def (dword h.mem (def + def_id)) h
