-- ===== src/Probe/Scan/Places.antt =====
-- The loop over one region as a list of places, and what `out` and `found` keep of them.
use mathlib.Core.Option
use crossover.Prelude.{
  ℕ, zero, suc, ◌+◌, ◌-◌, ◌/◌, ◌%◌, ◌≡◌, ◌<◌, inl, inr, refl, ap, sym, ◌∙◌, Bool, ◌&&◌, List,
  Ascends, Ascends-le, [], ◌∷◌, ◌++◌, append_assoc, append-nil, Option, none, some, leb, ltb, ◌==◌,
  if◌then◌else◌, length, take, keep, contains, arith, Bool-cases, length-append, ==_iff, lt→ltb,
}
use crossover.Probe.Regions.{Region, next_of, visited, walk_on, walk}
use crossover.Probe.Scan.{Found, none_found, note, scan_from}

-- The found addresses, as `out` and `found` keep them.
abbrev pub capped : ℕ → List ℕ → Found
capped max_out all = record { out = take max_out all; found = length all }

-- The places of a loop.
pub places : (step n p : ℕ) → List ℕ
places step zero p = []
places step (suc n) p = p ∷ places step n (p + step)

pub Ascends-places : (step n p : ℕ) → 0 < step → Ascends p (places step n p)
unfolding places
Ascends-places step zero p h = tt
Ascends-places step (suc n) p h = (
  omega arith,
  Ascends-le (suc p) (p + step) (places step n (p + step)) (omega arith)
      (Ascends-places step n (p + step) h),
)

take-nil : (n : ℕ) → take {A = ℕ} n [] ≡ []
take-nil zero = refl
take-nil (suc n) = refl

pub none_found-capped : (max_out : ℕ) → none_found ≡ capped max_out []
none_found-capped max_out = ap (λ xs. record { out = xs; found = 0 }) (sym (take-nil max_out))

take-snoc :
    (n : ℕ) (xs : List ℕ) (x : ℕ)
    → take n (xs ++ x ∷ []) ≡ (if ltb (length xs) n then take n xs ++ x ∷ [] else take n xs)
take-snoc zero [] x = refl
take-snoc zero (y ∷ ys) x = ground arith
take-snoc (suc n) [] x = rw (lt→ltb 0 (suc n) (omega arith)) (ap (◌∷◌ x) (take-nil n))
take-snoc (suc n) (y ∷ ys) x = ground (arith, take-snoc n ys x)

note-capped :
    (max_out : ℕ) (all : List ℕ) (p : ℕ)
    → note max_out p (capped max_out all) ≡ capped max_out (all ++ p ∷ [])
unfolding note
note-capped max_out all p = ground (arith, take-snoc max_out all p, length-append all (p ∷ []))

module _ (test : ℕ → Bool) (max_out step : ℕ) where
  pub scan_from-capped :
      (n p : ℕ) (all : List ℕ)
      → scan_from test max_out step n p (capped max_out all)
        ≡ capped max_out (all ++ keep test (places step n p))
  unfolding scan_from places
  scan_from-capped zero p all = ap (capped max_out) (sym (append-nil all))
  scan_from-capped (suc n) p all = elim (Bool-cases (test p)) [
    | inl yes_it ↦
        rw (yes_it, note-capped max_out all p)
          (scan_from-capped n (p + step) (all ++ p ∷ [])
            ∙ ap (capped max_out)
                (append_assoc all (p ∷ []) (keep test (places step n (p + step)))))
    | inr no_it ↦ rw no_it (scan_from-capped n (p + step) all)
  ]

-- A walk that keeps a view of another's state.
module _ {S T : Type 0} (f : S → T) (query : ℕ → Option Region) (ok : Region → Bool)
    (visit : Region → S → S) (visit' : Region → T → T)
    (agree : (r : Region) (s : S) → visit' r (f s) ≡ f (visit r s)) where
  walk_on-map :
      (o : Option Region) (addr : ℕ) (s : S) (rest : ℕ → S → Option S) (rest' : ℕ → T → Option T)
      → ((a : ℕ) (k : S) → rest' a (f k) ≡ Option.map f (rest a k))
      → walk_on ok visit' o addr (f s) rest' ≡ Option.map f (walk_on ok visit o addr s rest)
  walk_on-map none addr s rest rest' h = refl
  walk_on-map (some r) addr s rest rest' h =
      ground (arith, agree r s, h (next_of r) (visited ok visit r s), h (next_of r) s)

  pub walk-map :
      (fuel addr : ℕ) (s : S)
      → walk query ok visit' fuel addr (f s) ≡ Option.map f (walk query ok visit fuel addr s)
  unfolding walk
  walk-map zero addr s = refl
  walk-map (suc fuel) addr s =
      walk_on-map (query addr) addr s (walk query ok visit fuel) (walk query ok visit' fuel)
        (walk-map fuel)

pub contains-keep :
    (test : ℕ → Bool) (xs : List ℕ) (a : ℕ) → contains (keep test xs) a ≡ (contains xs a && test a)
contains-keep test [] a = refl
contains-keep test (x ∷ xs) a = elim (Bool-cases (a == x)) [
  | inl e ↦ ground (arith, contains-keep test xs a, ap test ((==_iff a x).0 e))
  | inr n ↦ ground (arith, contains-keep test xs a)
]

pub contains-places :
    (n p a : ℕ) → contains (places 4 n p) a ≡ (leb p a && ((a - p) % 4 == 0 && ltb ((a - p) / 4) n))
unfolding places
contains-places zero p a = ground arith
contains-places (suc n) p a = ground (arith, contains-places n (p + 4) a)

pub contains-places_one : (n p a : ℕ) → contains (places 1 n p) a ≡ (leb p a && ltb (a - p) n)
unfolding places
contains-places_one zero p a = ground arith
contains-places_one (suc n) p a = ground (arith, contains-places_one n (p + 1) a)
