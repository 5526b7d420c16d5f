-- ===== src/Probe/Inspect/Reserved.antt =====
-- The slots of the six menu buttons cannot be crowded out.
use crossover.Prelude.{
  ℕ, suc, ◌+◌, ◌≡◌, ◌≢◌, ◌⊎◌, Bool, true, false, List, [], ◌∷◌, Option, none, some, ◌==◌,
  if◌then◌else◌, arith, contains,
}
use crossover.Probe.Memory.{Memory, dword}
use crossover.Probe.Breakpoint.{def_type}
use crossover.Probe.Layout.{def_id}
use crossover.Probe.Edits.{type_button}
use crossover.Probe.Inspect.{CapDef, fill, Place, no_slot, taken, placed, place, full_by_id}

-- A full slot holds the button that it is reserved for.
abbrev pub IsFiled : List ℕ → List CapDef → Type 0
IsFiled [] [] = Unit
IsFiled [] (c ∷ cs) = ⊥
IsFiled (i ∷ is) [] = ⊥
IsFiled (i ∷ is) (c ∷ cs) =
    (((c.def == 0) ≡ true) ⊎ ((c.id ≡ i) × (c.type ≡ type_button))) × IsFiled is cs

-- The slots that are full.
abbrev pub full_slots : List CapDef → ℕ
full_slots [] = 0
full_slots (c ∷ cs) = if c.def == 0 then full_slots cs else suc (full_slots cs)

-- What became of a search.
abbrev pub Placed : (List CapDef → Type 0) → Type 0 → Type 0 → Place → Type 0
Placed P A B no_slot = A
Placed P A B taken = B
Placed P A B (placed menu) = P menu

abbrev pub has_some {ℓ} : {A : Type ℓ} → Option A → Bool
has_some none = false
has_some (some a) = true

module _ (m : Memory) (def : ℕ) (real : def ≢ 0) where
  abbrev pub id : ℕ
  id = dword m (def + def_id)

  pub place-Filed :
      (ids : List ℕ) (menu : List CapDef)
      → dword m (def + def_type) ≡ type_button
      → IsFiled ids menu
      → Placed
          (λ menu'. IsFiled ids menu' × (full_slots menu' ≡ full_slots menu + 1))
          Unit
          Unit
          (place m def id ids menu)
  unfolding place fill
  place-Filed [] [] b f = tt
  place-Filed [] (c ∷ cs) b f = tt
  place-Filed (i ∷ is) [] b f = tt
  place-Filed (i ∷ is) (c ∷ cs) b f = ground (arith, place-Filed is cs b f.1)

  -- A search for a reserved id leaves a full slot with it.
  pub place-full :
      (ids : List ℕ) (menu : List CapDef)
      → IsFiled ids menu
      → contains ids id ≡ true
      → Placed
          (λ menu'. has_some (full_by_id id menu') ≡ true)
          ⊥
          (has_some (full_by_id id menu) ≡ true)
          (place m def id ids menu)
  unfolding place fill full_by_id
  place-full [] [] f c = cc
  place-full [] (d ∷ ds) f c = cc
  place-full (i ∷ is) [] f c = absurd f
  place-full (i ∷ is) (d ∷ ds) f c = ground (arith, place-full is ds f.1)

  -- No search empties a slot.
  pub place_keeps :
      (j : ℕ) (ids : List ℕ) (menu : List CapDef)
      → has_some (full_by_id j menu) ≡ true
      → Placed (λ menu'. has_some (full_by_id j menu') ≡ true) Unit Unit (place m def id ids menu)
  unfolding place fill full_by_id
  place_keeps j [] [] h = tt
  place_keeps j [] (c ∷ cs) h = tt
  place_keeps j (i ∷ is) [] h = tt
  place_keeps j (i ∷ is) (c ∷ cs) h = ground (arith, place_keeps j is cs)
