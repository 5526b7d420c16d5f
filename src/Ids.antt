-- ===== src/Ids.antt =====
-- The search for the lowest free id, which the code writes out three times: AllocateNetworkId in
-- Server/src/RelayServer.cpp, GetFreeNetworkId in Core/Multiplayer/Network/NetworkUtils.cpp and
-- GetFreeLocalId in Core/Multiplayer/Fable/NetPlayerManager/NetPlayerManagerUtils.cpp.
use crossover.Prelude.{
  ℕ, zero, suc, ◌+◌, ◌≤◌, ◌<◌, ◌≡◌, refl, List, [], ◌∷◌, Option, none, some, true, false,
  if◌then◌else◌, contains, length, leb, Bool-cases, inl, inr, arith,
}

-- `for (candidate = first;; ++candidate)` with fuel, over the ids in use.
unfoldable pub free_from : ℕ → ℕ → List ℕ → Option ℕ
free_from zero candidate used = none
free_from (suc fuel) candidate used =
    let rest = free_from fuel (suc candidate) used in
    if contains used candidate then rest else some candidate

pub record IsLowestFree (first : ℕ) (used : List ℕ) (r : ℕ) : Type 0 where
  pub above : first ≤ r
  pub free : contains used r ≡ false
  pub lowest : (k : ℕ) → first ≤ k → k < r → contains used k ≡ true
  pub bound : r ≤ first + length used

-- How many of the ids are at least `c`: the measure of the loop.
count_from : ℕ → List ℕ → ℕ
count_from c [] = 0
count_from c (x ∷ xs) = if leb c x then suc (count_from c xs) else count_from c xs

count_from-le-length : (c : ℕ) (xs : List ℕ) → count_from c xs ≤ length xs
unfolding count_from
count_from-le-length c [] = omega arith
count_from-le-length c (x ∷ xs) = ground (arith, count_from-le-length c xs)

count_from-suc-le : (c : ℕ) (xs : List ℕ) → count_from (suc c) xs ≤ count_from c xs
unfolding count_from
count_from-suc-le c [] = omega arith
count_from-suc-le c (x ∷ xs) = ground (arith, count_from-suc-le c xs)

count_from_used :
    (c : ℕ) (xs : List ℕ) → contains xs c ≡ true → count_from (suc c) xs < count_from c xs
unfolding count_from
count_from_used c [] h = ground arith
count_from_used c (x ∷ xs) h = ground (arith, count_from_used c xs, count_from-suc-le c xs)

-- The value that the loop returns at its first free candidate.
Found : ℕ → ℕ → List ℕ → Type 0
Found fuel c used =
    (r : ℕ) × (free_from fuel c used ≡ some r)
    × (c ≤ r)
    × (contains used r ≡ false)
    × ((k : ℕ) → c ≤ k → k < r → contains used k ≡ true)
    × (r ≤ c + count_from c used)

free_from_hit : (fuel c : ℕ) (used : List ℕ) → count_from c used < fuel → Found fuel c used
unfolding free_from Found
free_from_hit zero c used h = absurd (omega arith)
free_from_hit (suc fuel) c used h = elim (Bool-cases (contains used c)) [
  | inl taken ↦
      let drop : count_from (suc c) used < count_from c used = count_from_used c used taken in
      let (r, e, a, u, l, b) = free_from_hit fuel (suc c) used (omega arith) in
      (r, rw taken e, omega arith, u, between c r used taken l, omega arith)
  | inr free ↦ (c, rw free refl, omega arith, free, λ k p q. absurd (omega arith), omega arith)
]
  where
    between :
        (c r : ℕ) (used : List ℕ)
        → contains used c ≡ true
        → ((k : ℕ) → suc c ≤ k → k < r → contains used k ≡ true)
        → (k : ℕ) → c ≤ k
        → k < r
        → contains used k ≡ true
    between c r used taken l k p q = ground (arith, l k)

-- One more round than there are ids is enough fuel.
pub free_from_lem :
    (c : ℕ) (used : List ℕ)
    → (r : ℕ) × (free_from (suc (length used)) c used ≡ some r) × IsLowestFree c used r
unfolding Found
free_from_lem c used =
    let few : count_from c used ≤ length used = count_from-le-length c used in
    let (r, e, a, u, l, b) = free_from_hit (suc (length used)) c used (omega arith) in
    (r, e, record { above = a; free = u; lowest = l; bound = omega arith })
