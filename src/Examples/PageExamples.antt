-- ===== src/Examples/PageExamples.antt =====
-- A row of a page, for the edits of page-mods.c in tools/re-probe.
use crossover.Prelude.{◌+◌, ◌≡◌, refl, true, false, arith}
use crossover.Probe.Memory.{Memory, dword, store, plausible, read_bytes, wide}
use crossover.Probe.Breakpoint.{Hook}
use crossover.Probe.Layout.{def_id}
use crossover.Probe.Page.{Page, row_label, edit_page}
use crossover.Probe.Page.Learned.{IsRow, IsPlain, edit_page-order}

-- Nothing but zeros.
abbrev blank : Memory
blank = λ a. 0

-- The middle component of a row at 0x500000, its label at 0x510000 with the id 900.
abbrev row : Memory
row =
    store
      (store
        (store
          (store
            (store
              (store (store (store (store blank 0x500020 348) 0x500070 0x600000) 0x500074 0x600004)
                0x600000 900)
              0x510020 900)
            0x51003C 6)
          0x510054 0x610000)
        0x610000 0x620000)
      0x620000 0x41

abbrev fresh_page : Hook Page
fresh_page = record {
  mem = row;
  orig = 0;
  saved = false;
  own = record {
    rows = 0x700000;
    row_text_id = 0;
    did_menu_text = false;
    did_menu_action = false;
    did_title = false;
    did_list = false;
    did_row_text = false;
    did_row_action = false;
    old_action = 0;
    list_n = 0;
  };
}

shown-IsRow : IsRow 0x500000 0x510000 0x620000 fresh_page
unfolding dword store plausible
shown-IsRow = record {
  mid_id = refl;
  list_real = refl;
  list_some = omega arith;
  first = refl;
  text_type = refl;
  strobj_real = refl;
  chars_real = refl;
  key = refl;
  unlearned = refl;
  unlabelled = refl;
}

label-IsPlain : IsPlain (dword row (0x510000 + def_id))
unfolding dword store
label-IsPlain = record {
  some_id = λ e. ground arith;
  not_text = λ e. ground arith;
  not_button = λ e. ground arith;
  not_title = λ e. ground arith;
  not_list = λ e. ground arith;
  not_mid = λ e. ground arith;
  not_row = λ e. ground arith;
}

edit_page-order_example :
    let k = edit_page 0x510000 (edit_page 0x500000 fresh_page) in
    (read_bytes k.mem 0x620000 30 ≡ wide row_label)
    × (k.own.did_row_text ≡ true)
    × ((edit_page 0x500000 (edit_page 0x510000 fresh_page)).mem ≡ row)
edit_page-order_example =
    edit_page-order 0x500000 0x510000 0x620000 fresh_page shown-IsRow label-IsPlain
