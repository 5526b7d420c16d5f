-- ===== src/Probe/Edits/Orders.antt =====
-- The two edits of menu-action.c in tools/re-probe, in whichever order the game comes to them.
use crossover.Prelude.{ℕ, ◌+◌, ◌^◌, ◌≤◌, ◌<◌, ◌≡◌, ◌⊎◌, refl, ap, sym, ◌∙◌, true, false, arith}
use crossover.Probe.Memory.{
  Memory, dword, store, plausible, Apart, write_bytes, wide, write_bytes_outside,
  write_bytes_inside, dword-write_bytes-Apart, dword-store-Apart, dword-store, read_bytes,
  read_bytes-write_bytes, read_bytes_same,
}
use crossover.Probe.Breakpoint.{Hook}
use crossover.Probe.Layout.{
  def_id, def_key, def_action, def_action2, quit_button, quit_ctext, set_actions,
}
use crossover.Probe.Edits.{Relabel, ours, edit_label, edit_button, edit_action, options_what}

act_done-edit_label :
    (label : ℕ) (h : Hook Relabel) → (edit_label label h).own.act_done ≡ h.own.act_done
unfolding edit_label
act_done-edit_label label h = ground arith

act_done-edit_button : (b : ℕ) (h : Hook Relabel) → (edit_button b h).own.act_done ≡ true
unfolding edit_button
act_done-edit_button b h = refl

text_done-edit_button :
    (b : ℕ) (h : Hook Relabel) → (edit_button b h).own.text_done ≡ h.own.text_done
unfolding edit_button
text_done-edit_button b h = refl

set_actions_outside :
    (def action : ℕ) (m : Memory) (x : ℕ)
    → (x < def + def_action) ⊎ (def + 0xE8 ≤ x)
    → set_actions def action m x ≡ m x
unfolding set_actions store
set_actions_outside def action m x h = ground arith

action_set :
    (def action : ℕ) (m : Memory)
    → action < 2 ^ 32
    → dword (set_actions def action m) (def + def_action) ≡ action
unfolding set_actions
action_set def action m h = ground (
  arith,
  dword-store-Apart (store m (def + def_action) action) (def + def_action2) action
      (def + def_action),
  dword-store m (def + def_action) action,
)

action2_set :
    (def action : ℕ) (m : Memory)
    → action < 2 ^ 32
    → dword (set_actions def action m) (def + def_action2) ≡ action
unfolding set_actions
action2_set def action m h =
    dword-store (store m (def + def_action) action) (def + def_action2) action h

-- The definitions of Quit's label and button, and what they refer to, where neither is edited yet.
pub record IsQuitRow (label button strobj chars : ℕ) (h : Hook Relabel) : Type 0 where
  pub label_real : plausible label ≡ true
  pub button_real : plausible button ≡ true
  pub label_id : dword h.mem (label + def_id) ≡ quit_ctext
  pub button_id : dword h.mem (button + def_id) ≡ quit_button
  pub key : dword h.mem (label + def_key) ≡ strobj
  pub key_chars : dword h.mem strobj ≡ chars
  pub strobj_real : plausible strobj ≡ true
  pub chars_real : plausible chars ≡ true
  pub no_text : h.own.text_done ≡ false
  pub no_action : h.own.act_done ≡ false
  pub chars_apart : Apart chars 10 button 0xE8
  pub label_apart : Apart label 0x58 button 0xE8
  pub strobj_apart : Apart strobj 4 button 0xE8

module _ (label button strobj chars : ℕ) (h : Hook Relabel)
    (w : IsQuitRow label button strobj chars h) where
  after_label : edit_action label h ≡ edit_label label h
  unfolding edit_action
  after_label = ground (arith, w.label_real, w.label_id, w.no_text)

  after_button : edit_action button h ≡ edit_button button h
  unfolding edit_action
  after_button = ground (arith, w.button_real, w.button_id, w.no_action)

  label_mem : (edit_label label h).mem ≡ write_bytes h.mem chars (wide ours)
  unfolding edit_label
  label_mem = ground (arith, w.key, w.key_chars, w.strobj_real, w.chars_real)

  button_mem : (edit_button button h).mem ≡ set_actions button options_what h.mem
  unfolding edit_button
  button_mem = refl

  label_first : edit_action button (edit_action label h) ≡ edit_button button (edit_label label h)
  unfolding edit_action wide
  label_first = rw after_label (
      ground (
        arith,
        w.button_real,
        w.button_id,
        act_done-edit_label label h,
        w.no_action,
        w.chars_apart,
        dword-write_bytes-Apart h.mem chars (wide ours) (button + def_id),
        label_mem,
      ))

  -- Setting the actions of the button leaves what is apart from it.
  kept :
      (a : ℕ)
      → Apart a 4 button 0xE8
      → dword (set_actions button options_what h.mem) a ≡ dword h.mem a
  unfolding set_actions
  kept a p =
      let m1 = store h.mem (button + def_action) options_what in
      ground (
        arith,
        dword-store-Apart m1 (button + def_action2) options_what a,
        dword-store-Apart h.mem (button + def_action) options_what a,
      )

  button_first : edit_action label (edit_action button h) ≡ edit_label label (edit_button button h)
  unfolding edit_action edit_button
  button_first =
      rw after_button
        (ground (arith, w.label_real, w.label_id, w.no_text, w.label_apart, kept (label + def_id)))

  label_mem' :
      (edit_label label (edit_button button h)).mem
      ≡ write_bytes (set_actions button options_what h.mem) chars (wide ours)
  unfolding edit_label edit_button
  label_mem' = ground (
    arith,
    w.key,
    w.key_chars,
    w.strobj_real,
    w.chars_real,
    w.label_apart,
    w.strobj_apart,
    kept (label + def_key),
    kept strobj,
  )

  -- The two writes, in either order.
  same_mem :
      (x : ℕ)
      → set_actions button options_what (write_bytes h.mem chars (wide ours)) x
        ≡ write_bytes (set_actions button options_what h.mem) chars (wide ours) x
  unfolding set_actions store wide
  same_mem x =
      let m' = set_actions button options_what h.mem in
      ground (
        arith,
        w.chars_apart,
        write_bytes_outside h.mem chars (wide ours) x,
        write_bytes_outside m' chars (wide ours) x,
        write_bytes_inside h.mem m' chars (wide ours) x,
      )

  orders_mem :
      (x : ℕ)
      → (edit_action button (edit_action label h)).mem x
        ≡ (edit_action label (edit_action button h)).mem x
  unfolding edit_button
  orders_mem x =
      ap (λ (k : Hook Relabel). k.mem x) label_first
      ∙ ap (λ (m : Memory). set_actions button options_what m x) label_mem
      ∙ same_mem x
      ∙ ap (λ (m : Memory). m x) (sym label_mem')
      ∙ ap (λ (k : Hook Relabel). k.mem x) (sym button_first)

  label_flags : (edit_label label h).own.text_done ≡ true
  unfolding edit_label
  label_flags = ground (arith, w.key, w.key_chars, w.strobj_real, w.chars_real)

  final_text : read_bytes (edit_button button (edit_label label h)).mem chars 10 ≡ wide ours
  unfolding edit_button wide
  final_text =
      read_bytes_same (write_bytes h.mem chars (wide ours)) _ chars 10 (λ x p q.
        ap (λ (m : Memory). set_actions button options_what m x) label_mem ∙ outside x p q)
      ∙ read_bytes-write_bytes h.mem chars (wide ours)
    where
      outside :
          (x : ℕ)
          → chars ≤ x
          → x < chars + 10
          → set_actions button options_what (write_bytes h.mem chars (wide ours)) x
            ≡ write_bytes h.mem chars (wide ours) x
      outside x p q =
          set_actions_outside button options_what (write_bytes h.mem chars (wide ours)) x
            (ground (arith, w.chars_apart))

  final_action :
      dword (edit_button button (edit_label label h)).mem (button + def_action) ≡ options_what
  unfolding edit_button
  final_action = action_set button options_what (edit_label label h).mem (omega arith)

  final_action2 :
      dword (edit_button button (edit_label label h)).mem (button + def_action2) ≡ options_what
  unfolding edit_button
  final_action2 = action2_set button options_what (edit_label label h).mem (omega arith)

  -- The label and the button may come in either order.
  pub edit_action-orders :
      let k = edit_action button (edit_action label h) in
      ((x : ℕ) → k.mem x ≡ (edit_action label (edit_action button h)).mem x)
      × (read_bytes k.mem chars 10 ≡ wide ours)
      × (dword k.mem (button + def_action) ≡ options_what)
      × (dword k.mem (button + def_action2) ≡ options_what)
      × (k.own.text_done ≡ true)
      × (k.own.act_done ≡ true)
  edit_action-orders = (
    orders_mem,
    rw label_first final_text,
    rw label_first final_action,
    rw label_first final_action2,
    rw label_first (text_done-edit_button button (edit_label label h) ∙ label_flags),
    rw label_first (act_done-edit_button button (edit_label label h)),
  )
