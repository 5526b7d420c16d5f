-- ===== src/Probe/Text/Printable.antt =====
-- What the readers of text accept, and what they return.
use crossover.Prelude.{
  ℕ, zero, suc, ◌+◌, ◌-◌, ◌≤◌, ◌<◌, ◌≡◌, ◌≢◌, ◌⊎◌, ◌↔◌, inl, inr, refl, Bool, true, false, List, [],
  ◌∷◌, Option, none, some, length, arith, Bool-cases,
}
use crossover.Probe.Memory.{Memory, word16, plausible}
use crossover.Probe.Text.{prints, read_units, long_enough, read_some, read_text, read_wide}

long : (least : ℕ) (o : Option (List ℕ)) (cs : List ℕ) → long_enough least o ≡ some cs → o ≡ some cs
long least none cs e = cc
long least (some ds) cs e = ground arith

long_length :
    (least : ℕ) (o : Option (List ℕ)) (cs : List ℕ)
    → long_enough least o ≡ some cs
    → least ≤ length cs
long_length least none cs e = cc
long_length least (some ds) cs e = ground arith

module _ (bad : ℕ → ℕ → Bool) (m : Memory) (get : ℕ → ℕ) (width : ℕ) where
  -- The characters stand in memory one after the other, readable and printable.
  abbrev pub Holds : List ℕ → ℕ → Type 0
  Holds [] p = Unit
  Holds (c ∷ cs) p =
      ((bad p width ≡ false) × (get p ≡ c) × (c ≢ 0) × (prints c ≡ true)) × Holds cs (p + width)

  -- Where they end: at the limit, before what cannot be read, or before a 0.
  abbrev pub Ends : (left p : ℕ) → List ℕ → Type 0
  Ends left p [] = (left ≡ 0) ⊎ ((bad p width ≡ true) ⊎ (get p ≡ 0))
  Ends left p (c ∷ cs) = (0 < left) × Ends (left - 1) (p + width) cs

  read_units-Holds :
      (left p : ℕ) (cs : List ℕ)
      → read_units bad m get width left p ≡ some cs
      → Holds cs p × Ends left p cs
  unfolding read_units
  read_units-Holds zero p [] e = (tt, inl refl)
  read_units-Holds zero p (c ∷ cs) e = cc
  read_units-Holds (suc k) p [] e = elim (Bool-cases (bad p width)) [
    | inl b ↦ (tt, inr (inl b))
    | inr g ↦ (tt, inr (inr (ground (arith))))
  ]
  read_units-Holds (suc k) p (c ∷ cs) e = ground (arith, read_units-Holds k (p + width) cs)

  Holds-read_units :
      (left p : ℕ) (cs : List ℕ)
      → Holds cs p
      → Ends left p cs
      → read_units bad m get width left p ≡ some cs
  unfolding read_units
  Holds-read_units zero p [] h e = refl
  Holds-read_units zero p (c ∷ cs) h e = absurd (omega (arith, e.0))
  Holds-read_units (suc k) p [] h (inl z) = absurd (omega (arith, z))
  Holds-read_units (suc k) p [] h (inr (inl b)) = rw b refl
  Holds-read_units (suc k) p [] h (inr (inr z)) = ground (arith, z)
  Holds-read_units (suc k) p (c ∷ cs) h e = ground (arith, Holds-read_units k (p + width) cs)

  -- A text is read exactly where one stands that is long enough.
  read_some_iff :
      (least p cap : ℕ) (cs : List ℕ)
      → (read_some bad m get width least p cap ≡ some cs) ↔ (
          (plausible p ≡ true)
          × (bad p width ≡ false)
          × (least ≤ length cs)
          × Holds cs p
          × Ends (cap - 1) p cs)
  unfolding read_some
  read_some_iff least p cap cs = (there, back)
    where
      there :
          read_some bad m get width least p cap ≡ some cs
          → (plausible p ≡ true)
            × (bad p width ≡ false)
            × (least ≤ length cs)
            × Holds cs p
            × Ends (cap - 1) p cs
      there e =
          let (h, n) =
            read_units-Holds (cap - 1) p cs
              (long least (read_units bad m get width (cap - 1) p) cs (ground arith)) in
          (
            ground arith,
            ground arith,
            long_length least (read_units bad m get width (cap - 1) p) cs (ground arith),
            h,
            n,
          )

      back :
          (plausible p ≡ true)
            × (bad p width ≡ false)
            × (least ≤ length cs)
            × Holds cs p
            × Ends (cap - 1) p cs
          → read_some bad m get width least p cap ≡ some cs
      back (v, b, l, h, n) = rw (v, b, Holds-read_units (cap - 1) p cs h n) (ground arith)

module _ (bad : ℕ → ℕ → Bool) (m : Memory) where
  -- read_text returns a text exactly when the pointer is plausible and readable, and from it on
  -- stand three or more characters, readable and printable, as many as the text has, which end at
  -- the buffer's limit, before an unreadable byte, or before a 0.
  pub read_text_iff :
      (p cap : ℕ) (cs : List ℕ)
      → (read_text bad m p cap ≡ some cs) ↔ (
          (plausible p ≡ true)
          × (bad p 1 ≡ false)
          × (3 ≤ length cs)
          × Holds bad m m 1 cs p
          × Ends bad m m 1 (cap - 1) p cs)
  unfolding read_text
  read_text_iff p cap cs = read_some_iff bad m m 1 3 p cap cs

  -- The same of read_wide, with characters of 16 bits.
  pub read_wide_iff :
      (p cap : ℕ) (cs : List ℕ)
      → (read_wide bad m p cap ≡ some cs) ↔ (
          (plausible p ≡ true)
          × (bad p 2 ≡ false)
          × (3 ≤ length cs)
          × Holds bad m (word16 m) 2 cs p
          × Ends bad m (word16 m) 2 (cap - 1) p cs)
  unfolding read_wide
  read_wide_iff p cap cs = read_some_iff bad m (word16 m) 2 3 p cap cs
