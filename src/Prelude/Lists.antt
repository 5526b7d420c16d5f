-- ===== src/Prelude/Lists.antt =====
-- Lists measured and searched by native numbers, under the library's names.
use Prim.Native.Nat.{ℕ, zero, suc, ◌+◌, ◌-◌, ◌≤◌, ◌<◌, min}
use mathlib.Core.Path.{◌≡◌, refl, ap, sym, subst}
use mathlib.Core.Logic.{inl, inr}
use mathlib.Core.Bool.{Bool, true, false, ◌||◌}
use mathlib.Core.List.{List, [], ◌∷◌, ◌++◌, map, reverse, reverse-cons}
use native.Mathlib.Omega.{arith}
use crossover.Prelude.Tests.{◌==◌, if◌then◌else◌, Bool-cases, ==_iff}

module _ {ℓ} {A : Type ℓ} where
  abbrev pub length : List A → ℕ
  length [] = 0
  length (x ∷ xs) = suc (length xs)

  abbrev pub take : ℕ → List A → List A
  take zero xs = []
  take (suc n) [] = []
  take (suc n) (x ∷ xs) = x ∷ take n xs

  abbrev pub drop : ℕ → List A → List A
  drop zero xs = xs
  drop (suc n) [] = []
  drop (suc n) (x ∷ xs) = drop n xs

  -- The elements that pass a test, in order.
  abbrev pub keep : (A → Bool) → List A → List A
  keep p [] = []
  keep p (x ∷ xs) = if p x then x ∷ keep p xs else keep p xs

  abbrev pub All {κ} : (A → Type κ) → List A → Type κ
  All P [] = Unit
  All P (x ∷ xs) = P x × All P xs

  pub length-append : (xs ys : List A) → length (xs ++ ys) ≡ length xs + length ys
  length-append [] ys = omega arith
  length-append (x ∷ xs) ys = omega (arith, length-append xs ys)

  pub take-append : (xs ys : List A) → take (length xs) (xs ++ ys) ≡ xs
  take-append [] ys = refl
  take-append (x ∷ xs) ys = ap (◌∷◌ x) (take-append xs ys)

  pub drop-append : (xs ys : List A) → drop (length xs) (xs ++ ys) ≡ ys
  drop-append [] ys = refl
  drop-append (x ∷ xs) ys = drop-append xs ys

  pub take-append_eq : (n : ℕ) (xs ys : List A) → length xs ≡ n → take n (xs ++ ys) ≡ xs
  take-append_eq n xs ys h = rw h at (take-append xs ys)

  pub drop-append_eq : (n : ℕ) (xs ys : List A) → length xs ≡ n → drop n (xs ++ ys) ≡ ys
  drop-append_eq n xs ys h = rw h at (drop-append xs ys)

  pub take-append_le : (n : ℕ) (xs ys : List A) → n ≤ length xs → take n (xs ++ ys) ≡ take n xs
  take-append_le zero xs ys h = refl
  take-append_le (suc n) [] ys h = absurd (omega arith)
  take-append_le (suc n) (x ∷ xs) ys h = ap (◌∷◌ x) (take-append_le n xs ys (omega arith))

  pub drop-append_le :
      (n : ℕ) (xs ys : List A) → n ≤ length xs → drop n (xs ++ ys) ≡ drop n xs ++ ys
  drop-append_le zero xs ys h = refl
  drop-append_le (suc n) [] ys h = absurd (omega arith)
  drop-append_le (suc n) (x ∷ xs) ys h = drop-append_le n xs ys (omega arith)

  pub take-append-drop : (n : ℕ) (xs : List A) → take n xs ++ drop n xs ≡ xs
  take-append-drop zero xs = refl
  take-append-drop (suc n) [] = refl
  take-append-drop (suc n) (x ∷ xs) = rw (take-append-drop n xs)

  pub length-take : (n : ℕ) (xs : List A) → length (take n xs) ≡ min n (length xs)
  length-take zero xs = omega arith
  length-take (suc n) [] = omega arith
  length-take (suc n) (x ∷ xs) = omega (arith, length-take n xs)

  pub length-drop : (n : ℕ) (xs : List A) → length (drop n xs) ≡ length xs - n
  length-drop zero xs = omega arith
  length-drop (suc n) [] = omega arith
  length-drop (suc n) (x ∷ xs) = omega (arith, length-drop n xs)

  pub length-reverse : (xs : List A) → length (reverse xs) ≡ length xs
  length-reverse [] = refl
  length-reverse (x ∷ xs) =
      omega (
        arith,
        ap length (reverse-cons x xs),
        length-append (reverse xs) (x ∷ []),
        length-reverse xs,
      )

  pub length-keep-le : (p : A → Bool) (xs : List A) → length (keep p xs) ≤ length xs
  length-keep-le p [] = omega arith
  length-keep-le p (x ∷ xs) = ground (arith, length-keep-le p xs)

  pub All-keep {κ} : (P : A → Type κ) (p : A → Bool) (xs : List A) → All P xs → All P (keep p xs)
  All-keep P p [] h = tt
  All-keep P p (x ∷ xs) h = ground (arith, All-keep P p xs h.1)

  pub All-imply {κ μ} :
      (P : A → Type κ) (Q : A → Type μ) (xs : List A) → ((x : A) → P x → Q x) → All P xs → All Q xs
  All-imply P Q [] f h = tt
  All-imply P Q (x ∷ xs) f h = (f x h.0, All-imply P Q xs f h.1)

  pub All-append {κ} : (P : A → Type κ) (xs ys : List A) → All P xs → All P ys → All P (xs ++ ys)
  All-append P [] ys hx hy = hy
  All-append P (x ∷ xs) ys hx hy = (hx.0, All-append P xs ys hx.1 hy)

module _ {ℓ κ} {A : Type ℓ} {B : Type κ} where
  pub length-map : (f : A → B) (xs : List A) → length (map f xs) ≡ length xs
  length-map f [] = refl
  length-map f (x ∷ xs) = ap suc (length-map f xs)

  pub All-map {μ} :
      (P : B → Type μ) (f : A → B) (xs : List A) → All (λ x. P (f x)) xs → All P (map f xs)
  All-map P f [] h = tt
  All-map P f (x ∷ xs) h = (h.0, All-map P f xs h.1)

-- Membership of a number, as a test.
abbrev pub contains : List ℕ → ℕ → Bool
contains [] a = false
contains (x ∷ xs) a = a == x || contains xs a

-- How often a number occurs.
abbrev pub count : ℕ → List ℕ → ℕ
count a [] = 0
count a (x ∷ xs) = if a == x then suc (count a xs) else count a xs

abbrev pub IsDistinct : List ℕ → Type 0
IsDistinct [] = Unit
IsDistinct (x ∷ xs) = (contains xs x ≡ false) × IsDistinct xs

pub contains-append :
    (xs ys : List ℕ) (a : ℕ) → contains (xs ++ ys) a ≡ (contains xs a || contains ys a)
contains-append [] ys a = refl
contains-append (x ∷ xs) ys a = ground (arith, contains-append xs ys a)

pub count_absent : (a : ℕ) (xs : List ℕ) → contains xs a ≡ false → count a xs ≡ 0
count_absent a [] h = refl
count_absent a (x ∷ xs) h = ground (arith, count_absent a xs)

-- A number that is not in a list can go at its end.
pub IsDistinct-append :
    (xs : List ℕ) (a : ℕ) → IsDistinct xs → contains xs a ≡ false → IsDistinct (xs ++ a ∷ [])
IsDistinct-append [] a d h = (refl, tt)
IsDistinct-append (x ∷ xs) a d h =
    (ground (arith, contains-append xs (a ∷ []) x), IsDistinct-append xs a d.1 (ground arith))

-- The numbers grow, from `low` on.
abbrev pub Ascends : ℕ → List ℕ → Type 0
Ascends low [] = Unit
Ascends low (x ∷ xs) = (low ≤ x) × Ascends (suc x) xs

pub Ascends-le : (low high : ℕ) (xs : List ℕ) → low ≤ high → Ascends high xs → Ascends low xs
Ascends-le low high [] h a = tt
Ascends-le low high (x ∷ xs) h a = (omega (arith, a.0), a.1)

pub Ascends-keep : (low : ℕ) (p : ℕ → Bool) (xs : List ℕ) → Ascends low xs → Ascends low (keep p xs)
Ascends-keep low p [] a = tt
Ascends-keep low p (x ∷ xs) a = elim (Bool-cases (p x)) [
  | inl e ↦ rw e (a.0, Ascends-keep (suc x) p xs a.1)
  | inr n ↦ rw n (Ascends-keep low p xs (Ascends-le low (suc x) xs (omega (arith, a.0)) a.1))
]

pub Ascends-append :
    (low mid : ℕ) (xs ys : List ℕ)
    → Ascends low xs
    → ((a : ℕ) → contains xs a ≡ true → a < mid)
    → low ≤ mid
    → Ascends mid ys
    → Ascends low (xs ++ ys)
Ascends-append low mid [] ys h below l a = Ascends-le low mid ys l a
Ascends-append low mid (x ∷ xs) ys h below l a = (
  h.0,
  Ascends-append (suc x) mid xs ys h.1 (λ b c. below b (ground arith)) (below x (ground arith)) a,
)

-- What holds of every number of a list holds of one in it.
pub All-contains {ℓ} :
    (P : ℕ → Type ℓ) (xs : List ℕ) (a : ℕ) → All P xs → contains xs a ≡ true → P a
All-contains P [] a h c = cc
All-contains P (x ∷ xs) a h c = elim (Bool-cases (a == x)) [
  | inl e ↦ subst P (sym ((==_iff a x).0 e)) h.0
  | inr n ↦ All-contains P xs a h.1 (ground arith)
]

pub All-zip {ℓ κ} :
    {A : Type ℓ} (P Q : A → Type κ) (xs : List A) → All P xs → All Q xs → All (λ x. P x × Q x) xs
All-zip P Q [] p q = tt
All-zip P Q (x ∷ xs) p q = ((p.0, q.0), All-zip P Q xs p.1 q.1)
