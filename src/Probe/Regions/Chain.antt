-- ===== src/Probe/Regions/Chain.antt =====
-- The walk over the regions ends, and comes to every region once, where VirtualQuery answers as it
-- is documented to and the address space does not change during the walk.
use crossover.Prelude.{
  ℕ, zero, suc, ◌+◌, ◌-◌, ◌^◌, ◌≤◌, ◌<◌, ◌≡◌, ◌≢◌, inl, inr, refl, ap, ◌∙◌, Bool, true, false, ◌&&◌,
  ◌||◌, List, ◌++◌, Option, none, some, leb, ltb, ◌==◌, contains, contains-append, arith, Ascends,
  Ascends-le, Ascends-append, Bool-cases, if_cases, ==_iff, leb→le,
}
use crossover.Probe.Regions.{Region, next_of, visited, walk_on, walk}

-- A query reports the region around the address, the same one for each of its addresses, and fails
-- above the space that the process may use.
pub record IsQuery (query : ℕ → Option Region) : Type 0 where
  pub below : (a : ℕ) (r : Region) → query a ≡ some r → r.base ≤ a
  pub above : (a : ℕ) (r : Region) → query a ≡ some r → a < r.base + r.size
  pub space : (a : ℕ) (r : Region) → query a ≡ some r → r.base + r.size < 2 ^ 32
  pub stable :
      (a b : ℕ) (r : Region)
      → query a ≡ some r
      → r.base ≤ b
      → b < r.base + r.size
      → query b ≡ some r
  pub ends : (a b : ℕ) → query a ≡ none → a ≤ b → query b ≡ none

module _ {S : Type 0} (ok : Region → Bool) (visit : Region → S → S) where
  -- The three ways on from one query.
  walk_on_cases :
      (P : Option S → Type 0) (o : Option Region) (addr : ℕ) (s : S) (rest : ℕ → S → Option S)
      → (o ≡ none → P (some s))
      → ((r : Region) → o ≡ some r → next_of r ≤ addr → P (some (visited ok visit r s)))
      → ((r : Region) → o ≡ some r → addr < next_of r → P (rest (next_of r) (visited ok visit r s)))
      → P (walk_on ok visit o addr s rest)
  walk_on_cases P none addr s rest out back on = out refl
  walk_on_cases P (some r) addr s rest out back on =
      if_cases P (leb (next_of r) addr) (λ e. back r refl (ground arith))
        (λ e. on r refl (ground arith))

pub next_of-lt : (r : Region) → next_of r < 2 ^ 32
unfolding next_of
next_of-lt r = omega arith

module _ {S : Type 0} (query : ℕ → Option Region) (ok : Region → Bool)
    (visit : Region → S → S) where
  -- A walk ends, with a round for every address.
  pub walk-some :
      (fuel addr : ℕ) (s : S)
      → addr < 2 ^ 32
      → 2 ^ 32 ≤ addr + fuel
      → (s' : S) × (walk query ok visit fuel addr s ≡ some s')
  unfolding walk
  walk-some zero addr s h k = absurd (omega arith)
  walk-some (suc fuel) addr s h k =
      walk_on_cases ok visit (λ o. (s' : S) × (o ≡ some s')) (query addr) addr s _ (λ e. (s, refl))
        (λ r e b. (visited ok visit r s, refl))
        (λ r e f. walk-some fuel (next_of r) (visited ok visit r s) (next_of-lt r) (omega arith))

-- What a scan that collects addresses finds at an address, from the region that holds it.
abbrev pub hit : (Region → Bool) → (Region → List ℕ) → Option Region → ℕ → Bool
hit ok hits none a = false
hit ok hits (some r) a = ok r && contains (hits r) a

-- The collecting visit.
abbrev pub collect : (Region → List ℕ) → Region → List ℕ → List ℕ
collect hits r found = found ++ hits r

module _ (query : ℕ → Option Region) (q : IsQuery query) (ok : Region → Bool)
    (hits : Region → List ℕ)
    (inside : (r : Region) (a : ℕ)
      → contains (hits r) a ≡ true
      → (r.base ≤ a) × (a < r.base + r.size))
    (ascends : (r : Region) → Ascends r.base (hits r)) where
  next_of-query : (a : ℕ) (r : Region) → query a ≡ some r → next_of r ≡ r.base + r.size
  unfolding next_of
  next_of-query a r e = omega (arith, q.space a r e)

  -- The addresses that the walk is at are where regions begin.
  abbrev pub Begins : ℕ → Type 0
  Begins addr = (r : Region) → query addr ≡ some r → r.base ≡ addr

  next_of-Begins : (addr : ℕ) (r : Region) → query addr ≡ some r → Begins (next_of r)
  next_of-Begins addr r e r' e' = elim (Bool-cases (r'.base == next_of r)) [
    | inl eq ↦ (==_iff r'.base (next_of r)).0 eq
    | inr ne ↦ absurd (clash (ground arith))
  ]
    where
      clash : r'.base ≢ next_of r → ⊥
      clash ne =
          let b = q.below (next_of r) r' e' in
          let u = q.above (next_of r) r' e' in
          let n = next_of-query addr r e in
          let w = q.above addr r e in
          let s = q.stable (next_of r) (next_of r - 1) r' e' (omega arith) (omega arith) in
          let t =
            q.stable addr (next_of r - 1) r e (omega (arith, q.below addr r e)) (omega arith) in
          let same : r ≡ r' = cc in omega (arith, ap (λ (x : Region). x.base + x.size) same)

  old_or_new :
      (r : Region) (found : List ℕ) (a : ℕ)
      → contains (visited ok (collect hits) r found) a
        ≡ (contains found a || (ok r && contains (hits r) a))
  old_or_new r found a = ground (arith, contains-append found (hits r) a)

  -- A region's hits go behind those of the regions before it.
  new_behind :
      (addr : ℕ) (found : List ℕ) (r : Region)
      → r.base ≡ addr
      → Ascends 0 found
      → ((a : ℕ) → contains found a ≡ true → a < addr)
      → Ascends 0 (visited ok (collect hits) r found)
  new_behind addr found r b up below = elim (Bool-cases (ok r)) [
    | inl e ↦ rw e (
        Ascends-append 0 addr found (hits r) up below (omega arith)
          (Ascends-le addr r.base (hits r) (omega arith) (ascends r)))
    | inr n ↦ rw n up
  ]

  -- What is known of a walk's result.
  abbrev pub Finds : (addr : ℕ) (found : List ℕ) → Option (List ℕ) → Type 0
  Finds addr found o =
      (all : List ℕ) × (o ≡ some all)
      × Ascends 0 all
      × ((a : ℕ) → contains all a ≡ (contains found a || (leb addr a && hit ok hits (query a) a)))

  pub walk_collects :
      (fuel addr : ℕ) (found : List ℕ)
      → addr < 2 ^ 32
      → 2 ^ 32 ≤ addr + fuel
      → Begins addr
      → Ascends 0 found
      → ((a : ℕ) → contains found a ≡ true → a < addr)
      → Finds addr found (walk query ok (collect hits) fuel addr found)
  unfolding walk
  walk_collects zero addr found h k g up below = absurd (omega arith)
  walk_collects (suc fuel) addr found h k g up below =
      walk_on_cases ok (collect hits) (Finds addr found) (query addr) addr found _
        (λ e. (found, refl, up, λ a. nothing a e))
        (λ r e b. absurd (omega (arith, next_of-query addr r e, q.above addr r e)))
        (λ r e f.
          let (all, run, grows, is) =
            walk_collects fuel (next_of r) (visited ok (collect hits) r found) (next_of-lt r)
              (omega arith) (next_of-Begins addr r e) (new_behind addr found r (g r e) up below)
              (passed r e) in
          (all, run, grows, λ a. is a ∙ step r e a))
    where
      passed :
          (r : Region)
          → query addr ≡ some r
          → (a : ℕ) → contains (visited ok (collect hits) r found) a ≡ true
          → a < next_of r
      passed r e a c = ground (
        arith,
        old_or_new r found a,
        inside r a,
        below a,
        next_of-query addr r e,
        q.above addr r e,
      )

      nothing :
          (a : ℕ)
          → query addr ≡ none
          → contains found a ≡ (contains found a || (leb addr a && hit ok hits (query a) a))
      nothing a e = elim (Bool-cases (leb addr a)) [
        | inl up ↦ rw (q.ends addr a e (leb→le addr a up)) (ground arith)
        | inr low ↦ rw low (ground arith)
      ]

      step :
          (r : Region)
          → query addr ≡ some r
          → (a : ℕ)
          → (contains (visited ok (collect hits) r found) a
              || (leb (next_of r) a && hit ok hits (query a) a))
            ≡ (contains found a || (leb addr a && hit ok hits (query a) a))
      step r e a = elim (Bool-cases (leb addr a && ltb a (next_of r))) [
        | inl here ↦
            rw
              (q.stable addr a r e (ground (arith, g r e)) (ground (arith, next_of-query addr r e)))
              (ground (arith, old_or_new r found a))
        | inr away ↦ ground (
          arith,
          old_or_new r found a,
          inside r a,
          g r e,
          next_of-query addr r e,
          q.above addr r e,
        )
      ]
