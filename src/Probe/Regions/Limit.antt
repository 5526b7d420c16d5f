-- ===== src/Probe/Regions/Limit.antt =====
-- walk_memory ends, and keeps what each visit keeps.
use crossover.Prelude.{
  ℕ, zero, suc, ◌+◌, ◌^◌, ◌≤◌, ◌<◌, ◌≡◌, refl, Bool, true, not, Option, none, some, ltb, ◌==◌,
  arith, if_cases,
}
use crossover.Probe.Regions.{Region, next_of, visited, walk_memory_on, walk_memory, walk_limit}
use crossover.Probe.Regions.Chain.{IsQuery, next_of-lt}

advance :
    (query : ℕ → Option Region) (q : IsQuery query) (addr : ℕ) (r : Region) (fuel : ℕ)
    → query addr ≡ some r
    → 2 ^ 32 ≤ addr + suc fuel
    → 2 ^ 32 ≤ next_of r + fuel
unfolding next_of
advance query q addr r fuel e h = omega (arith, q.above addr r e, q.space addr r e)

module _ {S : Type 0} (ok : Region → Bool) (visit : Region → S → S) where
  walk_memory_on_cases :
      (P : Option S → Type 0) (o : Option Region) (s : S) (rest : ℕ → S → Option S)
      → P (some s)
      → ((r : Region) → o ≡ some r → P (some (visited ok visit r s)))
      → ((r : Region) → o ≡ some r → P (rest (next_of r) (visited ok visit r s)))
      → P (walk_memory_on ok visit o s rest)
  walk_memory_on_cases P none s rest out last on = out
  walk_memory_on_cases P (some r) s rest out last on =
      if_cases P (r.size == 0) (λ _. last r refl) (λ _. on r refl)

module _ {S : Type 0} (query : ℕ → Option Region) (ok : Region → Bool) (visit : Region → S → S)
    (Good : S → Type 0)
    (keeps : (r : Region) (s : S) → ok r ≡ true → Good s → Good (visit r s)) where
  visited-Good : (r : Region) (s : S) → Good s → Good (visited ok visit r s)
  visited-Good r s g = if_cases Good (ok r) (λ e. keeps r s e g) (λ _. g)

  -- It returns, and what it returns is good.
  abbrev pub Returned : Option S → Type 0
  Returned none = ⊥
  Returned (some s) = Good s

  pub walk_memory-Returned :
      (q : IsQuery query) (fuel addr : ℕ) (s : S)
      → 2 ^ 32 ≤ addr + fuel
      → addr < 2 ^ 32
      → Good s
      → Returned (walk_memory query ok visit fuel addr s)
  unfolding walk_memory
  walk_memory-Returned q zero addr s h k g = absurd (omega arith)
  walk_memory-Returned q (suc fuel) addr s h k g =
      if_cases Returned (not (ltb addr walk_limit)) (λ _. g)
        λ _.
          walk_memory_on_cases ok visit Returned (query addr) s _ g (λ r e. visited-Good r s g)
            (λ r e.
              walk_memory-Returned q fuel (next_of r) (visited ok visit r s) (further r e)
                (next_of-lt r) (visited-Good r s g))
    where
      further : (r : Region) → query addr ≡ some r → 2 ^ 32 ≤ next_of r + fuel
      further r e = advance query q addr r fuel e h

  some_of : (o : Option S) → Returned o → (s : S) × (o ≡ some s) × Good s
  some_of none g = absurd g
  some_of (some s) g = (s, refl, g)

  pub returned :
      (q : IsQuery query) (fuel addr : ℕ) (s : S)
      → 2 ^ 32 ≤ addr + fuel
      → addr < 2 ^ 32
      → Good s
      → (s' : S) × (walk_memory query ok visit fuel addr s ≡ some s') × Good s'
  returned q fuel addr s h k g = some_of _ (walk_memory-Returned q fuel addr s h k g)
