-- ===== src/Probe/Text.antt =====
-- How the probes of tools/re-probe read text that a value may lead to: bytes or 16-bit characters, one
-- pointer away or two. IsBadReadPtr is a parameter, `bad p n`. A reader that returns 0 is `none`.
pub mod Printable
use crossover.Prelude.{
  ℕ, zero, suc, ◌+◌, ◌-◌, ◌*◌, Bool, true, false, not, ◌&&◌, ◌||◌, List, [], ◌∷◌, Option, none,
  some, leb, ltb, ◌==◌, if◌then◌else◌, length,
}
use crossover.Probe.Memory.{Memory, dword, word16, plausible}

unfoldable pub prints : ℕ → Bool
prints c = not (ltb c 0x20 || ltb 0x7E c)

abbrev pub more : ℕ → Option (List ℕ) → Option (List ℕ)
more c none = none
more c (some cs) = some (c ∷ cs)

-- At least `least` characters, or it is noise.
abbrev pub long_enough : ℕ → Option (List ℕ) → Option (List ℕ)
long_enough least none = none
long_enough least (some cs) = if leb least (length cs) then some cs else none

module _ (bad : ℕ → ℕ → Bool) (m : Memory) where
  module _ (get : ℕ → ℕ) (width : ℕ) where
    -- The loop of the readers, with `left` places left in `out`.
    unfoldable pub read_units : (left p : ℕ) → Option (List ℕ)
    unfolding prints
    read_units zero p = some []
    read_units (suc k) p =
        let rest = read_units k (p + width) in
        if bad p width
        then some []
        else if get p == 0
        then some []
        else if not (prints (get p))
        then none
        else more (get p) rest

    unfoldable pub read_some : (least p cap : ℕ) → Option (List ℕ)
    unfolding read_units
    read_some least p cap =
        if not (plausible p) || bad p width
        then none
        else long_enough least (read_units (cap - 1) p)

  -- read_text of menu-inspect.c and menu-label.c, read_ascii of menu-utf16.c
  unfoldable pub read_text : (p cap : ℕ) → Option (List ℕ)
  unfolding read_some
  read_text p cap = read_some m 1 3 p cap

  -- read_wide of menu-utf16.c
  unfoldable pub read_wide : (p cap : ℕ) → Option (List ℕ)
  unfolding read_some
  read_wide p cap = read_some (word16 m) 2 3 p cap

  -- read_wide of type-census.c and page-survey.c
  unfoldable pub read_wide_key : (p cap : ℕ) → Option (List ℕ)
  unfolding read_some
  read_wide_key p cap = read_some (word16 m) 2 2 p cap

  -- The number of hops, and the text.
  abbrev pub or_hop : ℕ → Option (List ℕ) → Option (ℕ × List ℕ) → Option (ℕ × List ℕ)
  or_hop n none rest = rest
  or_hop n (some cs) rest = some (n, cs)

  unfoldable pub field_text : (v cap : ℕ) → Option (ℕ × List ℕ)
  unfolding read_text
  field_text v cap =
      or_hop 1 (read_text v cap)
        (if not (plausible v) || bad v 4 then none else or_hop 2 (read_text (dword m v) cap) none)

  -- text_from of menu-utf16.c, its `how` as the place of the reader in this order: W, A, ->W, ->A
  unfoldable pub text_from : (v cap : ℕ) → Option (ℕ × List ℕ)
  unfolding read_text read_wide
  text_from v cap = or_hop 0 (read_wide v cap) (
      or_hop 1 (read_text v cap) (
        if not (plausible v) || bad v 4
        then none
        else or_hop 2 (read_wide (dword m v) cap) (or_hop 3 (read_text (dword m v) cap) none)))
