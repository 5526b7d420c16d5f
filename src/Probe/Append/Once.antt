-- ===== src/Probe/Append/Once.antt =====
-- extend_screen over a whole burst of factory calls.
use mathlib.Core.List.{map-append}
use crossover.Prelude.{
  ℕ, ◌+◌, ◌*◌, ◌^◌, ◌≤◌, ◌<◌, ◌≡◌, ◌⊎◌, inl, inr, refl, ap, sym, ◌∙◌, true, false, List, [], ◌∷◌,
  ◌++◌, map, length, length-append, arith, Bool-cases, All, All-append, All-imply, contains,
  IsDistinct, IsDistinct-append, subst, All-contains, All-zip, if_cases,
}
use crossover.Probe.Memory.{Apart, dword_same}
use crossover.Probe.Layout.{def_child_begin, child_begin, child_count}
use crossover.Probe.Layout.Copying.{repoint_begin, repoint_outside}
use crossover.Probe.Breakpoint.{Hook}
use crossover.Probe.Append.{
  pool_bytes, max_defs, Pool, SeenDef, in_pool, extends, slot, fill_slot, seen_def, extend,
  extend_screen,
}
use crossover.Probe.Append.Children.{fill_slot_outside}
use crossover.Probe.Append.Extended.{IsPassed, extends-IsPassed}

-- The hits of the breakpoint, one definition each.
unfoldable pub extend_each : List ℕ → Hook Pool → Hook Pool
extend_each [] h = h
extend_each (d ∷ ds) h = extend_each ds (extend_screen d h)

abbrev pub defs : List SeenDef → List ℕ
defs = map λ s. s.def

-- Where the definitions of a run lie: apart from one another and from the pool.
pub record IsSpread (ds : List ℕ) (base : ℕ) : Type 0 where
  pub pool : base + pool_bytes < 2 ^ 32
  pub off_pool : (d : ℕ) → contains ds d ≡ true → Apart d 0x7C base pool_bytes
  pub off_defs :
      (d e : ℕ) → contains ds d ≡ true → contains ds e ≡ true → (d ≡ e) ⊎ Apart d 0x7C e 0x7C

-- Every recorded definition is of the run, is recorded once, and reads its children from the pool.
pub record IsOnce (ds : List ℕ) (base : ℕ) (h : Hook Pool) : Type 0 where
  pub same : h.own.base ≡ base
  pub recorded : h.own.next ≡ length h.own.seen
  pub bound : length h.own.seen ≤ max_defs
  pub distinct : IsDistinct (defs h.own.seen)
  pub known : All (λ d. contains ds d ≡ true) (defs h.own.seen)
  pub pooled : All (λ d. in_pool base (child_begin h.mem d) ≡ true) (defs h.own.seen)

refused :
    (h : Hook Pool) (def base : ℕ)
    → in_pool base (child_begin h.mem def) ≡ true
    → h.own.base ≡ base
    → extends def h ≡ true
    → ⊥
unfolding extends
refused h def base p e go = ground arith

base-extend : (def : ℕ) (h : Hook Pool) → (extend def h).own.base ≡ h.own.base
unfolding extend
base-extend def h = refl

next-extend : (def : ℕ) (h : Hook Pool) → (extend def h).own.next ≡ h.own.next + 1
unfolding extend
next-extend def h = refl

defs-extend : (def : ℕ) (h : Hook Pool) → defs (extend def h).own.seen ≡ defs h.own.seen ++ def ∷ []
unfolding extend seen_def
defs-extend def h = map-append (λ (s : SeenDef). s.def) h.own.seen _

length-seen-extend :
    (def : ℕ) (h : Hook Pool) → length (extend def h).own.seen ≡ length h.own.seen + 1
unfolding extend
length-seen-extend def h = length-append h.own.seen _

start :
    {ds : List ℕ} {base : ℕ} (h : Hook Pool)
    → h.own ≡ record { base = base; next = 0; seen = [] }
    → IsOnce ds base h
start {ds} {base} h e = record {
  same = ap (λ (p : Pool). p.base) e;
  recorded = ground arith;
  bound = ground arith;
  distinct = subst (λ (p : Pool). IsDistinct (defs p.seen)) (sym e) tt;
  known = subst (λ (p : Pool). All (λ d. contains ds d ≡ true) (defs p.seen)) (sym e) tt;
  pooled =
      subst (λ (p : Pool). All (λ d. in_pool base (child_begin h.mem d) ≡ true) (defs p.seen))
        (sym e) tt;
}

module _ (ds : List ℕ) (base : ℕ) (spread : IsSpread ds base) (def : ℕ)
    (of_run : contains ds def ≡ true) (h : Hook Pool) (w : IsOnce ds base h)
    (go : extends def h ≡ true) where
  passed : IsPassed def h
  passed = extends-IsPassed def h go

  mem_outside :
      (x : ℕ)
      → (x < base) ⊎ (base + pool_bytes ≤ x)
      → (x < def + def_child_begin) ⊎ (def + 0x7C ≤ x)
      → (extend def h).mem x ≡ h.mem x
  unfolding extend
  mem_outside x p q =
      let n = child_count h.mem def in
      let nv = slot h.own in
      let b = child_begin h.mem def in
      ground (
        arith,
        repoint_outside (fill_slot nv b n h.mem) def nv (nv + (n + 1) * 4)
            (omega (arith, spread.pool, w.same, passed.room))
            (omega (arith, spread.pool, w.same, passed.room, passed.small)) x,
        fill_slot_outside nv b n h.mem x,
        w.same,
        passed.room,
        passed.small,
      )

  new_pooled : in_pool base (child_begin (extend def h).mem def) ≡ true
  unfolding extend in_pool
  new_pooled =
      let n = child_count h.mem def in
      let nv = slot h.own in
      let b = child_begin h.mem def in
      ground (
        arith,
        repoint_begin (fill_slot nv b n h.mem) def nv (nv + (n + 1) * 4)
            (omega (arith, spread.pool, w.same, passed.room))
            (omega (arith, spread.pool, w.same, passed.room, passed.small)),
        w.same,
        passed.room,
      )

  old_pooled :
      (d : ℕ)
      → (contains ds d ≡ true) × (in_pool base (child_begin h.mem d) ≡ true)
      → in_pool base (child_begin (extend def h).mem d) ≡ true
  old_pooled d (c, e) = elim (spread.off_defs d def c of_run) [
    | inl same ↦
        subst (λ z. in_pool base (child_begin (extend def h).mem z) ≡ true) (sym same) new_pooled
    | inr apart ↦
        ap (in_pool base) (
          dword_same h.mem (extend def h).mem (d + def_child_begin)
            (λ x p q. mem_outside x (ground (arith, spread.off_pool d c)) (ground arith)))
        ∙ e
  ]

  not_yet : contains (defs h.own.seen) def ≡ false
  not_yet = elim (Bool-cases (contains (defs h.own.seen) def)) [
    | inl c ↦ absurd (
        clash (
          All-contains (λ d. in_pool base (child_begin h.mem d) ≡ true) (defs h.own.seen) def
            w.pooled c))
    | inr n ↦ n
  ]
    where
      clash : in_pool base (child_begin h.mem def) ≡ true → ⊥
      clash p = refused h def base p w.same go

  extend-IsOnce : IsOnce ds base (extend def h)
  extend-IsOnce = record {
    same = e_base ∙ w.same;
    recorded = ground (arith, w.recorded, e_next, e_length);
    bound = ground (arith, passed.record_room, e_length);
    distinct =
        subst IsDistinct (sym e_defs) (IsDistinct-append (defs h.own.seen) def w.distinct not_yet);
    known =
        subst (All (λ d. contains ds d ≡ true)) (sym e_defs) (
          All-append (λ d. contains ds d ≡ true) (defs h.own.seen) (def ∷ []) w.known (of_run, tt));
    pooled =
        subst (All (λ d. in_pool base (child_begin (extend def h).mem d) ≡ true)) (sym e_defs) (
          All-append (λ d. in_pool base (child_begin (extend def h).mem d) ≡ true) (defs h.own.seen)
            (def ∷ [])
            (All-imply _ _ (defs h.own.seen) old_pooled
              (All-zip _ _ (defs h.own.seen) w.known w.pooled))
            (new_pooled, tt));
  }
    where
      e_base : (extend def h).own.base ≡ h.own.base
      e_base = base-extend def h

      e_next : (extend def h).own.next ≡ h.own.next + 1
      e_next = next-extend def h

      e_defs : defs (extend def h).own.seen ≡ defs h.own.seen ++ def ∷ []
      e_defs = defs-extend def h

      e_length : length (extend def h).own.seen ≡ length h.own.seen + 1
      e_length = length-seen-extend def h

module _ (ds : List ℕ) (base : ℕ) (spread : IsSpread ds base) where
  extend_screen-IsOnce :
      (def : ℕ) (h : Hook Pool)
      → contains ds def ≡ true
      → IsOnce ds base h
      → IsOnce ds base (extend_screen def h)
  unfolding extend_screen
  extend_screen-IsOnce def h c w =
      if_cases (IsOnce ds base) (extends def h) (extend-IsOnce ds base spread def c h w) (λ _. w)

  extend_each-IsOnce_from :
      (es : List ℕ) (h : Hook Pool)
      → All (λ d. contains ds d ≡ true) es
      → IsOnce ds base h
      → IsOnce ds base (extend_each es h)
  unfolding extend_each
  extend_each-IsOnce_from [] h c w = w
  extend_each-IsOnce_from (e ∷ es) h c w =
      extend_each-IsOnce_from es (extend_screen e h) c.1 (extend_screen-IsOnce e h c.0 w)

  -- Over any burst of hits on definitions that lie apart from one another and from the pool,
  -- however often each comes: no definition is recorded twice, at most 32 are, as many slots of
  -- the pool are taken, and every recorded definition reads its children from the pool. The pool
  -- ends below 2 ^ 32, and at the start nothing is recorded and no slot taken.
  pub extend_each-IsOnce :
      (es : List ℕ) (h : Hook Pool)
      → All (λ d. contains ds d ≡ true) es
      → h.own ≡ record { base = base; next = 0; seen = [] }
      → IsOnce ds base (extend_each es h)
  extend_each-IsOnce es h c fresh = extend_each-IsOnce_from es h c (start h fresh)
