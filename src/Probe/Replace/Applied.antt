-- ===== src/Probe/Replace/Applied.antt =====
-- apply of menu-mods.c in tools/re-probe, over the places that its scan found.
use crossover.Prelude.{
  ℕ, ◌+◌, ◌≤◌, ◌<◌, ◌≡◌, ◌⊎◌, inl, inr, refl, sym, ◌∙◌, Bool, true, false, List, [], ◌∷◌, ◌==◌,
  length, contains, arith, Bool-cases, ==_iff, subst,
}
use crossover.Probe.Memory.{Memory, set_byte, Apart, write_bytes, write_bytes_outside}
use crossover.Probe.Scan.{same_bytes}
use crossover.Probe.Replace.{from, to, apply_one, apply}

same_bytes_same :
    (m m' : Memory) (bs : List ℕ) (p : ℕ)
    → ((x : ℕ) → p ≤ x → x < p + length bs → m' x ≡ m x)
    → same_bytes m' bs p ≡ same_bytes m bs p
unfolding same_bytes
same_bytes_same m m' [] p h = refl
same_bytes_same m m' (b ∷ bs) p h = ground (
  arith,
  h p (omega arith) (omega arith),
  same_bytes_same m m' bs (p + 1) (λ x a c. h x (omega arith) (omega arith)),
)

same_bytes-write_bytes :
    (m : Memory) (bs : List ℕ) (p : ℕ) → same_bytes (write_bytes m p bs) bs p ≡ true
unfolding same_bytes write_bytes set_byte
same_bytes-write_bytes m [] p = refl
same_bytes-write_bytes m (b ∷ bs) p = ground (
  arith,
  write_bytes_outside (set_byte m p b) (p + 1) bs p,
  same_bytes-write_bytes (set_byte m p b) bs (p + 1),
)

-- Two copies of FROM do not overlap.
not_overlapping :
    (m : Memory) (p q : ℕ)
    → same_bytes m from p ≡ true
    → same_bytes m from q ≡ true
    → p < q
    → p + 8 ≤ q
unfolding same_bytes
not_overlapping m p q a b l = ground arith

spaced :
    (m : Memory) (p q : ℕ)
    → same_bytes m from p ≡ true
    → same_bytes m from q ≡ true
    → (p ≡ q) ⊎ Apart p 8 q 8
spaced m p q a b = ground (arith, not_overlapping m p q a b, not_overlapping m q p b a)

-- The places that hits stand for, in the memory of the scan.
abbrev pub AreHits : Memory → List ℕ → Type 0
AreHits m hits = (p : ℕ) → contains hits p ≡ true → same_bytes m from p ≡ true

module _ (opens : ℕ → Bool) where
  -- What holds of the memory after one hit.
  apply_one_cases :
      (P : Memory → Type 0) (p : ℕ) (m : Memory)
      → (same_bytes m to p ≡ true → P m)
      → (opens p ≡ false → P m)
      → P (write_bytes m p to)
      → P (apply_one opens p m).0
  unfolding apply_one
  apply_one_cases P p m ours shut written = elim (Bool-cases (same_bytes m to p)) [
    | inl e ↦ rw e (ours e)
    | inr n ↦ elim (Bool-cases (opens p)) [ inl o ↦ rw (n, o) written | inr c ↦ rw (n, c) (shut c) ]
  ]

  apply_one_keeps :
      (p q : ℕ) (m : Memory)
      → (p ≡ q) ⊎ Apart p 8 q 8
      → same_bytes m to p ≡ true
      → same_bytes (apply_one opens q m).0 to p ≡ true
  apply_one_keeps p q m d h =
      apply_one_cases (λ k. same_bytes k to p ≡ true) q m (λ _. h) (λ _. h) (after_write d)
    where
      after_write : (p ≡ q) ⊎ Apart p 8 q 8 → same_bytes (write_bytes m q to) to p ≡ true
      after_write (inl e) =
          subst (λ x. same_bytes (write_bytes m q to) to x ≡ true) (sym e)
            (same_bytes-write_bytes m to q)
      after_write (inr a) =
          same_bytes_same m (write_bytes m q to) to p
            (λ x b c. write_bytes_outside m q to x (ground arith))
          ∙ h

  apply_one_reaches :
      (p : ℕ) (m : Memory) → opens p ≡ true → same_bytes (apply_one opens p m).0 to p ≡ true
  apply_one_reaches p m o =
      apply_one_cases (λ k. same_bytes k to p ≡ true) p m (λ e. e) (λ c. cc)
        (same_bytes-write_bytes m to p)

  apply_one_outside :
      (p : ℕ) (m : Memory) (x : ℕ) → (x < p) ⊎ (p + 8 ≤ x) → (apply_one opens p m).0 x ≡ m x
  unfolding apply_one
  apply_one_outside p m x h = ground (arith, write_bytes_outside m p to x h)

  apply_one_idle :
      (p : ℕ) (m : Memory)
      → (opens p ≡ true → same_bytes m to p ≡ true)
      → apply_one opens p m ≡ (m, false)
  unfolding apply_one
  apply_one_idle p m h = elim (Bool-cases (opens p)) [
    | inl o ↦ rw (h o) refl
    | inr s ↦ ground arith
  ]

  apply_keeps :
      (hits : List ℕ) (p : ℕ) (m : Memory)
      → ((q : ℕ) → contains hits q ≡ true → (p ≡ q) ⊎ Apart p 8 q 8)
      → same_bytes m to p ≡ true
      → same_bytes (apply opens hits m).0 to p ≡ true
  unfolding apply
  apply_keeps [] p m s h = h
  apply_keeps (q ∷ qs) p m s h =
      apply_keeps qs p (apply_one opens q m).0 (λ r c. s r (ground arith))
        (apply_one_keeps p q m (s q (ground arith)) h)

  apply_reaches :
      (hits : List ℕ) (p : ℕ) (m : Memory)
      → ((q : ℕ) → contains hits q ≡ true → (p ≡ q) ⊎ Apart p 8 q 8)
      → contains hits p ≡ true
      → opens p ≡ true
      → same_bytes (apply opens hits m).0 to p ≡ true
  unfolding apply
  apply_reaches [] p m s c o = cc
  apply_reaches (q ∷ qs) p m s c o = elim (Bool-cases (p == q)) [
    | inl e ↦
        apply_keeps qs p (apply_one opens q m).0 (λ r d. s r (ground arith))
          (subst (λ x. same_bytes (apply_one opens x m).0 to p ≡ true) ((==_iff p q).0 e)
            (apply_one_reaches p m o))
    | inr n ↦
        apply_reaches qs p (apply_one opens q m).0 (λ r d. s r (ground arith)) (ground arith) o
  ]

  apply_outside :
      (hits : List ℕ) (m : Memory) (x : ℕ)
      → ((p : ℕ) → contains hits p ≡ true → (x < p) ⊎ (p + 8 ≤ x))
      → (apply opens hits m).0 x ≡ m x
  unfolding apply
  apply_outside [] m x h = refl
  apply_outside (p ∷ ps) m x h =
      apply_outside ps (apply_one opens p m).0 x (λ q c. h q (ground arith))
      ∙ apply_one_outside p m x (h p (ground arith))

  apply_idle :
      (hits : List ℕ) (m : Memory)
      → ((p : ℕ) → contains hits p ≡ true → opens p ≡ true → same_bytes m to p ≡ true)
      → apply opens hits m ≡ (m, 0)
  unfolding apply
  apply_idle [] m h = refl
  apply_idle (p ∷ ps) m h =
      rw (apply_one_idle p m (h p (ground arith)))
        (rw (apply_idle ps m (λ q c. h q (ground arith))) refl)

  -- After apply, every hit whose page opens holds `Mods`, and nothing outside the hits has changed;
  -- applied again, it writes nothing.
  pub apply-apply :
      (hits : List ℕ) (m : Memory)
      → AreHits m hits
      → let m' = (apply opens hits m).0 in
        ((p : ℕ) → contains hits p ≡ true → opens p ≡ true → same_bytes m' to p ≡ true)
        × ((x : ℕ) → ((p : ℕ) → contains hits p ≡ true → (x < p) ⊎ (p + 8 ≤ x)) → m' x ≡ m x)
        × (apply opens hits m' ≡ (m', 0))
  apply-apply hits m are =
      let s : (p q : ℕ)
          → contains hits p ≡ true
          → contains hits q ≡ true
          → (p ≡ q) ⊎ Apart p 8 q 8 =
        λ p q c d. spaced m p q (are p c) (are q d) in
      let reached : (p : ℕ)
          → contains hits p ≡ true
          → opens p ≡ true
          → same_bytes (apply opens hits m).0 to p ≡ true =
        λ p c o. apply_reaches hits p m (λ q d. s p q c d) c o in
      (reached, apply_outside hits m, apply_idle hits (apply opens hits m).0 reached)
