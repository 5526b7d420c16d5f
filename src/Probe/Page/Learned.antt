-- ===== src/Probe/Page/Learned.antt =====
-- The order on which page-mods.c in tools/re-probe relies: a parent is dispatched before its
-- children, so the id of the row's label is known in time.
use crossover.Prelude.{ℕ, ◌+◌, ◌<◌, ◌≡◌, ◌≢◌, refl, ap, ◌∙◌, true, false, arith}
use crossover.Probe.Memory.{dword, plausible, write_bytes, wide, read_bytes, read_bytes-write_bytes}
use crossover.Probe.Breakpoint.{Hook, def_type}
use crossover.Probe.Layout.{def_id, def_key, quit_button, quit_ctext, child_begin, child_end}
use crossover.Probe.Page.{
  page_title, page_list, page_row, page_row_mid, row_label, Page, set_key, edit_menu_text,
  edit_menu_action, edit_title, edit_list, learn_row_text, edit_row_text, edit_row_action,
  edit_with, edit_page,
}

-- The row's middle component, whose first child is the label `text`, and what the label refers to.
pub record IsRow (mid text chars : ℕ) (h : Hook Page) : Type 0 where
  pub mid_id : dword h.mem (mid + def_id) ≡ page_row_mid
  pub list_real : plausible (child_begin h.mem mid) ≡ true
  pub list_some : child_begin h.mem mid < child_end h.mem mid
  pub first : dword h.mem (child_begin h.mem mid) ≡ dword h.mem (text + def_id)
  pub text_type : dword h.mem (text + def_type) ≡ 6
  pub strobj_real : plausible (dword h.mem (text + def_key)) ≡ true
  pub chars_real : plausible chars ≡ true
  pub key : dword h.mem (dword h.mem (text + def_key)) ≡ chars
  pub unlearned : h.own.row_text_id ≡ 0
  pub unlabelled : h.own.did_row_text ≡ false

-- The label's id is none of those that the other edits look for.
pub record IsPlain (id : ℕ) : Type 0 where
  pub some_id : id ≢ 0
  pub not_text : id ≢ quit_ctext
  pub not_button : id ≢ quit_button
  pub not_title : id ≢ page_title
  pub not_list : id ≢ page_list
  pub not_mid : id ≢ page_row_mid
  pub not_row : id ≢ page_row

-- Such an id passes the other edits by.
module _ (def id : ℕ) (h : Hook Page) (p : IsPlain id) where
  edit_menu_text_plain : edit_menu_text def id h ≡ h
  unfolding edit_menu_text
  edit_menu_text_plain = ground (arith, p.not_text)

  edit_menu_action_plain : edit_menu_action def id h ≡ h
  unfolding edit_menu_action
  edit_menu_action_plain = ground (arith, p.not_button)

  edit_title_plain : edit_title def id h ≡ h
  unfolding edit_title
  edit_title_plain = ground (arith, p.not_title)

  edit_list_plain : edit_list def id h ≡ h
  unfolding edit_list
  edit_list_plain = ground (arith, p.not_list)

  learn_row_text_plain : learn_row_text def id h ≡ h
  unfolding learn_row_text
  learn_row_text_plain = ground (arith, p.not_mid)

  edit_row_action_plain : edit_row_action def id h ≡ h
  unfolding edit_row_action
  edit_row_action_plain = ground (arith, p.not_row)

plain_lem : (def id : ℕ) (h : Hook Page) → IsPlain id → edit_with def id h ≡ edit_row_text def id h
unfolding edit_with
plain_lem def id h p =
    edit_row_action_plain def id _ p
    ∙ ap
        (λ k. edit_row_text def id (
          learn_row_text def id (edit_list def id (edit_title def id (edit_menu_action def id k)))))
        (edit_menu_text_plain def id h p)
    ∙ ap
        (λ k. edit_row_text def id (learn_row_text def id (edit_list def id (edit_title def id k))))
        (edit_menu_action_plain def id h p)
    ∙ ap (λ k. edit_row_text def id (learn_row_text def id (edit_list def id k)))
        (edit_title_plain def id h p)
    ∙ ap (λ k. edit_row_text def id (learn_row_text def id k)) (edit_list_plain def id h p)
    ∙ ap (edit_row_text def id) (learn_row_text_plain def id h p)

module _ (mid text chars : ℕ) (h : Hook Page) (w : IsRow mid text chars h)
    (plain : IsPlain (dword h.mem (text + def_id))) where
  learned :
      edit_page mid h
      ≡ record h { own = record h.own { row_text_id = dword h.mem (text + def_id) } }
  unfolding edit_page edit_with edit_menu_text edit_menu_action edit_title edit_list learn_row_text
      edit_row_text edit_row_action
  learned = ground (
    arith, w.mid_id, w.list_real, w.list_some, w.first, w.unlearned, plain.not_mid, plain.some_id,
  )

  labelled :
      edit_page text (record h { own = record h.own { row_text_id = dword h.mem (text + def_id) } })
      ≡ record h {
        mem = write_bytes h.mem chars (wide row_label);
        own = record h.own { row_text_id = dword h.mem (text + def_id); did_row_text = true };
      }
  unfolding edit_page edit_with edit_menu_text edit_menu_action edit_title edit_list learn_row_text
      edit_row_text edit_row_action set_key
  labelled = ground (
    arith, w.text_type, w.strobj_real, w.chars_real, w.key, w.unlabelled, plain.some_id,
    plain.not_text, plain.not_button, plain.not_title, plain.not_list, plain.not_mid, plain.not_row,
  )

  missed : edit_page text h ≡ h
  unfolding edit_page edit_row_text
  missed = plain_lem text (dword h.mem (text + def_id)) h plain ∙ ground (arith, w.unlearned)

  text_is : read_bytes (write_bytes h.mem chars (wide row_label)) chars 30 ≡ wide row_label
  unfolding wide
  text_is = read_bytes-write_bytes h.mem chars (wide row_label)

  -- If the row's middle component is dispatched before its label, the label's id is learned in
  -- time and its key is overwritten by the probe's text; if it is dispatched after it, memory
  -- stays as it was. The component has the label as its first child, the label is a text with
  -- plausible pointers, the row is neither learned nor labelled yet, and the label's id is not 0
  -- and none of those that the other edits look for.
  pub edit_page-order :
      let k = edit_page text (edit_page mid h) in
      (read_bytes k.mem chars 30 ≡ wide row_label)
      × (k.own.did_row_text ≡ true)
      × ((edit_page mid (edit_page text h)).mem ≡ h.mem)
  edit_page-order =
      (rw (learned, labelled) text_is, rw (learned, labelled) refl, rw (missed, learned) refl)
