-- ===== src/Probe/Survey/Tree.antt =====
-- The walk through the children of a definition, as a list of definitions in preorder.
use crossover.Prelude.{
  ℕ, zero, suc, ◌+◌, ◌≡◌, refl, ap, sym, ◌∙◌, ◌&&◌, List, [], ◌∷◌, ◌++◌, append_assoc, append-nil,
  ◌==◌, if◌then◌else◌, arith, Bool-cases,
}
use mathlib.Core.Logic.{inl, inr}
use crossover.Probe.Memory.{Memory, dword}
use crossover.Probe.Breakpoint.{def_type}
use crossover.Probe.Survey.{
  FoundDef, def_by_id, walk_children, Walked, type_text, print, walk_each, walk_tree,
}

module _ (found : List FoundDef) (m : Memory) where
  -- The tree below a definition, in preorder.
  preorder_each : (ℕ → List ℕ) → List ℕ → List ℕ
  preorder_each down [] = []
  preorder_each down (id ∷ ids) = down (def_by_id found id) ++ preorder_each down ids

  unfoldable pub preorder : (levels def : ℕ) → List ℕ
  unfolding preorder_each
  preorder zero def = []
  preorder (suc l) def =
      if def == 0 then [] else def ∷ preorder_each (preorder l) (walk_children m def)

  -- The first text of a list, unless there is one already.
  unfoldable pub first_text_of : ℕ → List ℕ → ℕ
  first_text_of old [] = old
  first_text_of old (d ∷ ds) =
      first_text_of (if dword m (d + def_type) == type_text && old == 0 then d else old) ds

  first_text_of-append :
      (old : ℕ) (ds es : List ℕ)
      → first_text_of old (ds ++ es) ≡ first_text_of (first_text_of old ds) es
  unfolding first_text_of
  first_text_of-append old [] es = refl
  first_text_of-append old (d ∷ ds) es =
      first_text_of-append (if dword m (d + def_type) == type_text && old == 0 then d else old) ds
        es

  abbrev after : Walked → List ℕ → Walked
  after w ds = record { printed = w.printed ++ ds; first_text = first_text_of w.first_text ds }

  after-append : (w : Walked) (ds es : List ℕ) → after (after w ds) es ≡ after w (ds ++ es)
  after-append w ds es =
      ground (arith, append_assoc w.printed ds es, first_text_of-append w.first_text ds es)

  after-nil : (w : Walked) → after w [] ≡ w
  unfolding first_text_of
  after-nil w = ground (arith, append-nil w.printed)

  walk_each-after :
      (down : ℕ → Walked → Walked) (flat : ℕ → List ℕ)
      → ((d : ℕ) (w : Walked) → down d w ≡ after w (flat d))
      → (ids : List ℕ) (w : Walked)
      → walk_each found m down ids w ≡ after w (preorder_each flat ids)
  unfolding walk_each preorder_each
  walk_each-after down flat h [] w = sym (after-nil w)
  walk_each-after down flat h (id ∷ ids) w =
      let d = def_by_id found id in
      walk_each-after down flat h ids (down d w)
      ∙ ap (λ v. after v (preorder_each flat ids)) (h d w)
      ∙ after-append w (flat d) (preorder_each flat ids)

  -- The walk prints the tree in preorder and notes the first text of it.
  pub walk_tree-preorder :
      (levels def : ℕ) (w : Walked)
      → walk_tree found m levels def w ≡ record {
        printed = w.printed ++ preorder levels def;
        first_text = first_text_of w.first_text (preorder levels def);
      }
  unfolding walk_tree preorder print first_text_of
  walk_tree-preorder zero def w = sym (after-nil w)
  walk_tree-preorder (suc l) def w = elim (Bool-cases (def == 0)) [
    | inl nothing ↦ rw nothing (sym (after-nil w))
    | inr some_def ↦ rw some_def (
        walk_each-after (walk_tree found m l) (preorder l) (walk_tree-preorder l)
          (walk_children m def) (print found m def w)
        ∙ after-append w (def ∷ []) (preorder_each (preorder l) (walk_children m def)))
  ]
