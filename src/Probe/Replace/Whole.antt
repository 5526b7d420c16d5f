-- ===== src/Probe/Replace/Whole.antt =====
-- find_all and apply of menu-mods.c in tools/re-probe, one after the other.
use crossover.Prelude.{
  ℕ, zero, suc, ◌+◌, ◌^◌, ◌≤◌, ◌<◌, ◌≡◌, ◌⊎◌, Bool, true, not, ◌&&◌, ◌||◌, List, [], ◌∷◌, ◌++◌,
  Option, some, ltb, leb, ◌==◌, if◌then◌else◌, length, length-append, contains, contains-append,
  arith, if_cases, Bool-cases, inl, inr, subst, ==_iff, sym,
}
use crossover.Probe.Memory.{Memory}
use crossover.Probe.Regions.{Region}
use crossover.Probe.Regions.Chain.{IsQuery}
use crossover.Probe.Regions.Limit.{returned}
use crossover.Probe.Scan.{rounds, same_bytes}
use crossover.Probe.Hunt.{start_address, is_self}
use crossover.Probe.Replace.{from, to, max_hits, replaceable, is_from, hits_from, find_all, apply}
use crossover.Probe.Replace.Applied.{AreHits, apply-apply}

module _ (m : Memory) where
  -- What g_hits is like, at any time of the scan.
  abbrev pub Collected : List ℕ → Type 0
  Collected hits = (length hits ≤ max_hits) × AreHits m hits

  one_more :
      (p : ℕ) (hits : List ℕ)
      → Collected hits
      → Collected (if is_from m p && ltb (length hits) max_hits then hits ++ p ∷ [] else hits)
  unfolding is_from
  one_more p hits (l, are) =
      if_cases Collected (is_from m p && ltb (length hits) max_hits)
        (λ e. (
          ground (arith, length-append hits (p ∷ [])),
          λ q c. new q (ground arith) (ground (arith, contains-append hits (p ∷ []) q)),
        ))
        (λ _. (l, are))
    where
      new :
          (q : ℕ)
          → same_bytes m from p ≡ true
          → (contains hits q || q == p) ≡ true
          → same_bytes m from q ≡ true
      new q e c = elim (Bool-cases (q == p)) [
        | inl here ↦ subst (λ x. same_bytes m from x ≡ true) (sym ((==_iff q p).0 here)) e
        | inr n ↦ are q (ground arith)
      ]

  hits_from-Collected :
      (n p : ℕ) (hits : List ℕ) → Collected hits → Collected (hits_from m n p hits)
  unfolding hits_from
  hits_from-Collected zero p hits g = g
  hits_from-Collected (suc n) p hits g = hits_from-Collected n (p + 2) _ (one_more p hits g)

  module _ (query : ℕ → Option Region) (q : IsQuery query) (fuel lo hi : ℕ)
      (enough : 2 ^ 32 ≤ fuel) where
    found : (hits : List ℕ) × (find_all query fuel lo hi m ≡ some hits) × Collected hits
    unfolding find_all
    found =
        returned query (λ r. replaceable r && (leb 0x100 r.size && not (is_self lo hi r.base)))
          (λ r. hits_from m (rounds r.size 10 2) r.base) Collected
          (λ r s e g. hits_from-Collected (rounds r.size 10 2) r.base s g) q fuel start_address []
          (omega (arith, enough)) (omega arith) (omega arith, λ p c. cc)

    -- find_all ends within 2 ^ 32 rounds with at most 64 hits; apply then leaves the new text at
    -- every hit whose page can be opened, and changes no byte outside the hits' eight; and apply
    -- once more writes nothing. What VirtualQuery reports for an address is the region that
    -- contains it, which ends below 2 ^ 32, and the same one for each address in it; past an
    -- address where it fails it fails too. VirtualProtect answers the same for an address each
    -- time.
    pub apply-find_all :
        (opens : ℕ → Bool)
        → (hits : List ℕ) × (find_all query fuel lo hi m ≡ some hits)
          × (length hits ≤ max_hits)
          × (let m' = (apply opens hits m).0 in
              ((p : ℕ) → contains hits p ≡ true → opens p ≡ true → same_bytes m' to p ≡ true)
              × ((x : ℕ) → ((p : ℕ) → contains hits p ≡ true → (x < p) ⊎ (p + 8 ≤ x)) → m' x ≡ m x)
              × (apply opens hits m' ≡ (m', 0)))
    apply-find_all opens =
        let (hits, e, (l, are)) = found in (hits, e, l, apply-apply opens hits m are)
