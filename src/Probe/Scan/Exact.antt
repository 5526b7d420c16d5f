-- ===== src/Probe/Scan/Exact.antt =====
-- A scan finds the places that hold what it looks for, all of them, and stores the first.
use mathlib.Core.Option
use crossover.Prelude.{
  ℕ, ◌+◌, ◌-◌, ◌%◌, ◌^◌, ◌≤◌, ◌<◌, ◌≡◌, ap, ◌∙◌, Bool, true, false, ◌&&◌, List, [], Option, none,
  some, leb, ◌==◌, length, keep, contains, arith, Ascends, Ascends-keep,
}
use crossover.Probe.Memory.{Memory, dword}
use crossover.Probe.Regions.{Region, region_ok, walk}
use crossover.Probe.Regions.Chain.{IsQuery, hit, collect, walk_collects}
use crossover.Probe.Scan.{Found, none_found, scan_from, rounds, scan_dword, find_string, text_at}
use crossover.Probe.Scan.Places.{
  capped, none_found-capped, places, scan_from-capped, walk-map, Ascends-places, contains-keep,
  contains-places, contains-places_one,
}

-- An address passes: its region does, it lies at a step from the region's start with `k` bytes left,
-- and it holds what is looked for.
abbrev pub passes : (ok : Region → Bool) (test : ℕ → Bool) (k step : ℕ) → Option Region → ℕ → Bool
passes ok test k step none a = false
passes ok test k step (some r) a =
    ok r
    && (leb r.base a && ((a - r.base) % step == 0 && (leb (a + k) (r.base + r.size) && test a)))

-- The whole of what a scan found, and what it kept.
abbrev pub IsScan :
    (query : ℕ → Option Region) (ok : Region → Bool) (test : ℕ → Bool) (k step max_out : ℕ)
    → Option Found
    → Type 0
IsScan query ok test k step max_out o =
    (all : List ℕ) × (o ≡ some (capped max_out all))
    × Ascends 0 all
    × ((a : ℕ) → contains all a ≡ passes ok test k step (query a) a)

module _ (query : ℕ → Option Region) (q : IsQuery query) (ok : Region → Bool) (test : ℕ → Bool)
    (k step max_out fuel : ℕ) (enough : 2 ^ 32 ≤ fuel)
    (finds : (r : Region) (a : ℕ)
      → contains (keep test (places step (rounds r.size k step) r.base)) a
        ≡ passes (λ _. true) test k step (some r) a)
    (wide : 0 < k) (steps : 0 < step) where
  abbrev hits : Region → List ℕ
  hits r = keep test (places step (rounds r.size k step) r.base)

  inside : (r : Region) (a : ℕ) → contains (hits r) a ≡ true → (r.base ≤ a) × (a < r.base + r.size)
  inside r a h = ground (arith, finds r a)

  ascends : (r : Region) → Ascends r.base (hits r)
  ascends r =
      Ascends-keep r.base test (places step (rounds r.size k step) r.base)
        (Ascends-places step (rounds r.size k step) r.base steps)

  pub walk-IsScan : IsScan query ok test k step max_out (
      walk query ok
        (λ r. scan_from test max_out step (rounds r.size k step) r.base)
        fuel
        0
        none_found)
  walk-IsScan =
      let (all, run, grows, is) =
        walk_collects query q ok hits inside ascends fuel 0 [] (omega arith) (omega (arith, enough))
          (λ r e. omega (arith, q.below 0 r e)) tt (λ a c. cc) in
      (
        all,
        ap (walk query ok (λ r. scan_from test max_out step (rounds r.size k step) r.base) fuel 0)
              (none_found-capped max_out)
            ∙ walk-map (capped max_out) query ok (collect hits)
                (λ r. scan_from test max_out step (rounds r.size k step) r.base)
                (λ r s. scan_from-capped test max_out step (rounds r.size k step) r.base s) fuel 0
                []
            ∙ ap (Option.map (capped max_out)) run,
        grows,
        λ a. is a ∙ same (query a) a,
      )
    where
      same : (o : Option Region) (a : ℕ) → (leb 0 a && hit ok hits o a) ≡ passes ok test k step o a
      same none a = ground arith
      same (some r) a = ground (arith, finds r a)

module _ (query : ℕ → Option Region) (q : IsQuery query) (fuel : ℕ) (enough : 2 ^ 32 ≤ fuel)
    (m : Memory) (own_stack max_out : ℕ) where
  -- scan_dword ends within 2 ^ 32 rounds, and returns the first max_out addresses of an ascending
  -- list and the length of that list, which has exactly the aligned places, in readable regions
  -- off the probe's own stack, where the word stands. What VirtualQuery reports for an address is
  -- the region that contains it, which ends below 2 ^ 32, and the same one for each address in it;
  -- past an address where it fails it fails too.
  pub scan_dword-IsScan :
      (v : ℕ)
      → IsScan query
          (region_ok own_stack)
          (λ p. dword m p == v)
          4
          4
          max_out
          (scan_dword query fuel m own_stack v max_out)
  unfolding scan_dword
  scan_dword-IsScan v =
      walk-IsScan query q (region_ok own_stack) (λ p. dword m p == v) 4 4 max_out fuel enough
        (λ r a.
          contains-keep (λ p. dword m p == v) (places 4 (rounds r.size 4 4) r.base) a
          ∙ ground (arith, contains-places (rounds r.size 4 4) r.base a))
        (omega arith) (omega arith)

  -- The same of find_string, at every place and with the 0 behind the text.
  pub find_string-IsScan :
      (s : List ℕ)
      → IsScan query
          (region_ok own_stack)
          (text_at m s)
          (length s + 1)
          1
          max_out
          (find_string query fuel m own_stack s max_out)
  unfolding find_string
  find_string-IsScan s =
      walk-IsScan query q (region_ok own_stack) (text_at m s) (length s + 1) 1 max_out fuel enough
        (λ r a.
          contains-keep (text_at m s) (places 1 (rounds r.size (length s + 1) 1) r.base) a
          ∙ ground (arith, contains-places_one (rounds r.size (length s + 1) 1) r.base a))
        (omega arith) (omega arith)
