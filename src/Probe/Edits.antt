-- ===== src/Probe/Edits.antt =====
-- The edits of menu-swap.c, menu-text.c, menu-key.c and menu-action.c in tools/re-probe: what each
-- makes of a definition that the factory has resolved.
pub mod Swapped
pub mod Orders
use crossover.Prelude.{
  ℕ, zero, suc, ◌+◌, ◌-◌, ◌*◌, ◌/◌, Bool, true, false, not, ◌&&◌, ◌||◌, List, [], ◌∷◌, leb, ltb,
  ◌==◌, if◌then◌else◌,
}
use crossover.Probe.Memory.{Memory, dword, word16, store, write_bytes, wide, plausible}
use crossover.Probe.Breakpoint.{Hook, def_type}
use crossover.Probe.Layout.{
  def_id, def_key, def_action, def_action2, quit_button, quit_ctext, def_child_begin, def_child_end,
  def_child_cap, copy_from, child_begin, child_end, child_count, repoint, set_actions,
}

-- menu-swap.c
abbrev pub quit_middle : ℕ
quit_middle = 252

abbrev pub options_ctext : ℕ
options_ctext = 269

-- `slot` is the address of g_slot.
pub record Swap : Type 0 where
  pub slot : ℕ
  pub done : Bool
  pub hit_def : ℕ
  pub n : ℕ
  pub old0 : ℕ
  pub old1 : ℕ

unfoldable pub swapped_id : ℕ → ℕ
swapped_id id = if id == quit_ctext then options_ctext else id

-- The early returns of swap_child.
unfoldable pub swaps : ℕ → Hook Swap → Bool
swaps def h =
    not h.own.done
    && (plausible def
        && (dword h.mem (def + def_id) == quit_middle
            && (plausible (child_begin h.mem def)
                && (ltb (child_begin h.mem def) (child_end h.mem def)
                    && (not (child_count h.mem def == 0) && leb (child_count h.mem def) 8)))))

unfoldable pub swap : ℕ → Hook Swap → Hook Swap
unfolding copy_from swapped_id repoint
swap def h =
    let b = child_begin h.mem def in
    let n = child_count h.mem def in
    let s = h.own.slot in
    let m = copy_from swapped_id n 0 b s h.mem in
    record h {
      mem = repoint def s (s + n * 4) m;
      own = record {
        slot = s;
        done = true;
        hit_def = def;
        n = n;
        old0 = dword m b;
        old1 = if ltb 1 n then dword m (b + 4) else 0;
      };
    }

unfoldable pub swap_child : ℕ → Hook Swap → Hook Swap
unfolding swaps swap
swap_child def h = if swaps def h then swap def h else h

-- menu-text.c
abbrev pub type_button : ℕ
type_button = 0x0B

abbrev pub options_what : ℕ
options_what = 297

pub record Retext : Type 0 where
  pub done : Bool
  pub hit_def : ℕ
  pub was : ℕ
  pub was2 : ℕ

unfoldable pub retext : ℕ → Hook Retext → Hook Retext
unfolding set_actions
retext def h =
    if h.own.done
    then h
    else if not (plausible def)
    then h
    else if not (dword h.mem (def + def_type) == type_button)
    then h
    else if not (dword h.mem (def + def_id) == quit_button)
    then h
    else record h {
      mem = set_actions def options_what h.mem;
      own = record {
        done = true;
        hit_def = def;
        was = dword h.mem (def + def_action);
        was2 = dword h.mem (def + def_action2);
      };
    }

-- The label `Mods`, of menu-key.c and menu-action.c.
abbrev pub ours : List ℕ
ours = 0x4D ∷ 0x6F ∷ 0x64 ∷ 0x73 ∷ []

-- The old key, for the log: at most so many characters, up to the first that does not print.
unfoldable pub key_was : ℕ → Memory → ℕ → List ℕ
key_was zero m a = []
key_was (suc k) m a =
    let w = word16 m a in
    let rest = w ∷ key_was k m (a + 2) in if w == 0 || (ltb w 0x20 || ltb 0x7E w) then [] else rest

pub record Rekey : Type 0 where
  pub done : Bool
  pub def : ℕ
  pub strobj : ℕ
  pub chars : ℕ
  pub was : List ℕ

-- menu-key.c
unfoldable pub rewrite_key : ℕ → Hook Rekey → Hook Rekey
unfolding key_was write_bytes wide
rewrite_key def h =
    let strobj = dword h.mem (def + def_key) in
    let chars = dword h.mem strobj in
    if h.own.done
    then h
    else if not (plausible def)
    then h
    else if not (dword h.mem (def + def_id) == quit_ctext)
    then h
    else if not (plausible strobj)
    then h
    else if not (plausible chars)
    then h
    else record h {
      mem = write_bytes h.mem chars (wide ours);
      own = record {
        done = true;
        def = def;
        strobj = strobj;
        chars = chars;
        was = key_was 63 h.mem chars;
      };
    }

pub record Relabel : Type 0 where
  pub text_done : Bool
  pub act_done : Bool
  pub text_def : ℕ
  pub act_def : ℕ
  pub act_was : ℕ
  pub act_was2 : ℕ
  pub key_was : List ℕ

-- menu-action.c: the branch for the label, which returns, and the one for the button.
unfoldable pub edit_label : ℕ → Hook Relabel → Hook Relabel
unfolding key_was write_bytes wide
edit_label def h =
    let strobj = dword h.mem (def + def_key) in
    let chars = dword h.mem strobj in
    if not (plausible strobj) then h else if not (plausible chars) then h else record h {
      mem = write_bytes h.mem chars (wide ours);
      own = record h.own { text_done = true; text_def = def; key_was = key_was 63 h.mem chars };
    }

unfoldable pub edit_button : ℕ → Hook Relabel → Hook Relabel
unfolding set_actions
edit_button def h = record h {
  mem = set_actions def options_what h.mem;
  own = record h.own {
    act_done = true;
    act_def = def;
    act_was = dword h.mem (def + def_action);
    act_was2 = dword h.mem (def + def_action2);
  };
}

unfoldable pub edit_action : ℕ → Hook Relabel → Hook Relabel
unfolding edit_label edit_button
edit_action def h =
    let id = dword h.mem (def + def_id) in
    if not (plausible def)
    then h
    else if id == quit_ctext && not h.own.text_done
    then edit_label def h
    else if id == quit_button && not h.own.act_done
    then edit_button def h
    else h
