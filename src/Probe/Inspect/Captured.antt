-- ===== src/Probe/Inspect/Captured.antt =====
-- A whole run of captures.
use crossover.Prelude.{
  ℕ, ◌+◌, ◌≤◌, ◌≡◌, ◌≢◌, inl, inr, refl, ap, sym, ◌∙◌, true, not, ◌&&◌, List, [], ◌∷◌, ◌++◌, map,
  some, leb, ◌==◌, length, length-append, arith, contains, Bool-cases, if_cases, IsDistinct,
  IsDistinct-append, subst, ==_iff,
}
use mathlib.Core.List.{map-append}
use crossover.Probe.Memory.{Memory, dword, plausible}
use crossover.Probe.Breakpoint.{def_type}
use crossover.Probe.Layout.{def_id}
use crossover.Probe.Edits.{type_button}
use crossover.Probe.Inspect.{
  menu_ids, max_caps, CapDef, no_cap, Inspect, no_inspect, fill, Place, no_slot, taken, placed,
  has_def, capture_shared, capture_placed, capture, full_by_id, cap_by_id,
}
use crossover.Probe.Inspect.Reserved.{
  IsFiled, full_slots, Placed, has_some, place-Filed, place-full, place_keeps,
}

abbrev pub defs : List CapDef → List ℕ
defs = map λ c. c.def

-- Reserved slots hold their own buttons and are counted; the pool is bounded, each definition once.
pub record IsInspected (s : Inspect) : Type 0 where
  pub filed : IsFiled menu_ids s.menu
  pub counted : s.have ≡ full_slots s.menu
  pub bound : length s.caps ≤ max_caps
  pub distinct : IsDistinct (defs s.caps)

unfoldable pub capture_each : Memory → List ℕ → Inspect → Inspect
capture_each m [] s = s
capture_each m (d ∷ ds) s = capture_each m ds (capture d m s)

has_def-contains : (def : ℕ) (cs : List CapDef) → has_def def cs ≡ contains (defs cs) def
unfolding has_def
has_def-contains def [] = refl
has_def-contains def (c ∷ cs) = ground (arith, has_def-contains def cs)

module _ (m : Memory) (def : ℕ) where
  abbrev id : ℕ
  id = dword m (def + def_id)

  new_defs : (cs : List CapDef) → defs (cs ++ fill m def no_cap ∷ []) ≡ defs cs ++ def ∷ []
  unfolding fill
  new_defs cs = map-append (λ (c : CapDef). c.def) cs _

  capture_shared-IsInspected :
      (type : ℕ) (s : Inspect) → IsInspected s → IsInspected (capture_shared m def type s)
  unfolding capture_shared
  capture_shared-IsInspected type s w =
      if_cases IsInspected _ (λ _. w)
        λ _.
          if_cases IsInspected (has_def def s.caps) (λ _. w)
            λ new.
              if_cases IsInspected (leb max_caps (length s.caps)) (λ _. w)
                λ room. record {
                  filed = w.filed;
                  counted = w.counted;
                  bound = ground (arith, length-append s.caps (fill m def no_cap ∷ []));
                  distinct = subst IsDistinct (sym (new_defs s.caps)) (
                      IsDistinct-append (defs s.caps) def w.distinct
                        (sym (has_def-contains def s.caps) ∙ new));
                }

  capture_placed-IsInspected :
      (type : ℕ) (s : Inspect) (p : Place)
      → IsInspected s
      → Placed
          (λ menu'. IsFiled menu_ids menu' × (full_slots menu' ≡ full_slots s.menu + 1))
          Unit
          Unit
          p
      → IsInspected (capture_placed m def type s p)
  unfolding capture_placed
  capture_placed-IsInspected type s no_slot w f = capture_shared-IsInspected type s w
  capture_placed-IsInspected type s taken w f = w
  capture_placed-IsInspected type s (placed menu) w f = record {
    filed = f.0;
    counted = ap (λ n. n + 1) w.counted ∙ sym f.1;
    bound = w.bound;
    distinct = w.distinct;
  }

  real : plausible def ≡ true → def ≢ 0
  unfolding plausible
  real h e = ground arith

  capture-IsInspected : (s : Inspect) → IsInspected s → IsInspected (capture def m s)
  unfolding capture
  capture-IsInspected s w = elim (Bool-cases (plausible def)) [
    | inr no_def ↦ rw no_def w
    | inl good ↦ elim (Bool-cases (dword m (def + def_type) == type_button)) [
      | inl button ↦
          rw (good, button)
            (capture_placed-IsInspected (dword m (def + def_type)) s _ w
              (place-Filed m def (real good) menu_ids s.menu (ground arith) w.filed))
      | inr other ↦ rw (good, other) (capture_shared-IsInspected (dword m (def + def_type)) s w)
    ]
  ]

  capture_placed-full :
      (type : ℕ) (s : Inspect) (p : Place) (j : ℕ)
      → has_some (full_by_id j s.menu) ≡ true
      → Placed (λ menu'. has_some (full_by_id j menu') ≡ true) Unit Unit p
      → has_some (full_by_id j (capture_placed m def type s p).menu) ≡ true
  unfolding capture_placed capture_shared
  capture_placed-full type s no_slot j h f = ground arith
  capture_placed-full type s taken j h f = h
  capture_placed-full type s (placed menu) j h f = f

  -- A slot that is full stays full.
  capture_keeps :
      (s : Inspect) (j : ℕ)
      → has_some (full_by_id j s.menu) ≡ true
      → has_some (full_by_id j (capture def m s).menu) ≡ true
  unfolding capture
  capture_keeps s j h = elim (Bool-cases (plausible def)) [
    | inr no_def ↦ rw no_def h
    | inl good ↦ elim (Bool-cases (dword m (def + def_type) == type_button)) [
      | inl button ↦
          rw (good, button)
            (capture_placed-full (dword m (def + def_type)) s _ j h
              (place_keeps m def (real good) j menu_ids s.menu h))
      | inr other ↦
          rw (good, other) (capture_placed-full (dword m (def + def_type)) s no_slot j h tt)
    ]
  ]

  capture_placed-finds :
      (s : Inspect) (p : Place)
      → Placed
          (λ menu'. has_some (full_by_id id menu') ≡ true)
          ⊥
          (has_some (full_by_id id s.menu) ≡ true)
          p
      → has_some (full_by_id id (capture_placed m def (dword m (def + def_type)) s p).menu) ≡ true
  unfolding capture_placed
  capture_placed-finds s no_slot f = absurd f
  capture_placed-finds s taken f = f
  capture_placed-finds s (placed menu) f = f

  capture_finds :
      (s : Inspect)
      → IsInspected s
      → plausible def ≡ true
      → dword m (def + def_type) ≡ type_button
      → contains menu_ids id ≡ true
      → has_some (full_by_id id (capture def m s).menu) ≡ true
  unfolding capture
  capture_finds s w good b c =
      let button : (dword m (def + def_type) == type_button) ≡ true = (==_iff _ _).1 b in
      rw (good, button)
        (capture_placed-finds s _ (place-full m def (real good) menu_ids s.menu w.filed c))

-- What a full slot holds.
full_by_id-IsFiled :
    (ids : List ℕ) (menu : List CapDef) (j : ℕ)
    → IsFiled ids menu
    → has_some (full_by_id j menu) ≡ true
    → (c : CapDef) × (full_by_id j menu ≡ some c) × (c.id ≡ j) × (c.type ≡ type_button)
unfolding full_by_id
full_by_id-IsFiled [] [] j f h = cc
full_by_id-IsFiled [] (c ∷ cs) j f h = absurd f
full_by_id-IsFiled (i ∷ is) [] j f h = absurd f
full_by_id-IsFiled (i ∷ is) (c ∷ cs) j f h = elim (Bool-cases (not (c.def == 0) && c.id == j)) [
  | inl here ↦ (c, rw here refl, ground arith, ground arith)
  | inr later ↦ rw later (full_by_id-IsFiled is cs j f.1 (rw later at h))
]

module _ (m : Memory) where
  captured_from : (ds : List ℕ) (s : Inspect) → IsInspected s → IsInspected (capture_each m ds s)
  unfolding capture_each
  captured_from [] s w = w
  captured_from (d ∷ ds) s w = captured_from ds (capture d m s) (capture-IsInspected m d s w)

  start : IsInspected no_inspect
  start = record {
    filed = (inl refl, (inl refl, (inl refl, (inl refl, (inl refl, (inl refl, tt))))));
    counted = refl;
    bound = omega arith;
    distinct = tt;
  }

  -- Any run of captures, from the start.
  pub capture_each-IsInspected : (ds : List ℕ) → IsInspected (capture_each m ds no_inspect)
  capture_each-IsInspected ds = captured_from ds no_inspect start

  each_keeps :
      (ds : List ℕ) (s : Inspect) (j : ℕ)
      → has_some (full_by_id j s.menu) ≡ true
      → has_some (full_by_id j (capture_each m ds s).menu) ≡ true
  unfolding capture_each
  each_keeps [] s j h = h
  each_keeps (d ∷ ds) s j h = each_keeps ds (capture d m s) j (capture_keeps m d s j h)

  each_finds :
      (before after : List ℕ) (def : ℕ) (s : Inspect)
      → IsInspected s
      → plausible def ≡ true
      → dword m (def + def_type) ≡ type_button
      → contains menu_ids (dword m (def + def_id)) ≡ true
      → has_some
          (full_by_id (dword m (def + def_id)) (capture_each m (before ++ def ∷ after) s).menu)
        ≡ true
  unfolding capture_each
  each_finds [] after def s w good b c =
      each_keeps after (capture def m s) (dword m (def + def_id)) (capture_finds m def s w good b c)
  each_finds (d ∷ ds) after def s w good b c =
      each_finds ds after def (capture d m s) (capture-IsInspected m d s w) good b c

  -- A button of the main menu that the game dispatches, among whatever other definitions and
  -- however many, is found by its id afterwards, in the form of a button of that id. Its address
  -- is plausible, nothing is captured at the start, and memory does not change meanwhile.
  pub cap_by_id-capture_each :
      (before after : List ℕ) (def : ℕ)
      → plausible def ≡ true
      → dword m (def + def_type) ≡ type_button
      → contains menu_ids (dword m (def + def_id)) ≡ true
      → (c : CapDef) × (cap_by_id
            (dword m (def + def_id))
            (capture_each m (before ++ def ∷ after) no_inspect)
          ≡ some c)
        × (c.id ≡ dword m (def + def_id))
        × (c.type ≡ type_button)
  unfolding cap_by_id
  cap_by_id-capture_each before after def good b c =
      let s = capture_each m (before ++ def ∷ after) no_inspect in
      let (cap, e, i, t) =
        full_by_id-IsFiled menu_ids s.menu (dword m (def + def_id))
          (capture_each-IsInspected (before ++ def ∷ after)).filed
          (each_finds before after def no_inspect start good b c) in
      (cap, rw e refl, i, t)
