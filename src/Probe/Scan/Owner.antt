-- ===== src/Probe/Scan/Owner.antt =====
-- The walk back from a reference in report of tools/re-probe/probe.c: the nearest word before it that
-- is a vtable starts the object that the reference lies in.
use crossover.Prelude.{
  ℕ, zero, suc, ◌+◌, ◌-◌, ◌*◌, ◌%◌, ◌^◌, ◌≤◌, ◌<◌, ◌≡◌, inl, inr, Bool, true, false, ◌&&◌, Option,
  none, some, leb, ltb, ◌==◌, if◌then◌else◌, arith, Bool-cases, if_cases, ==_iff,
}
use crossover.Probe.Memory.{Memory, dword}

abbrev pub rdata_lo : ℕ
rdata_lo = 0x0122D000

abbrev pub rdata_hi : ℕ
rdata_hi = 0x01374000

unfoldable pub is_vtable : Memory → ℕ → Bool
is_vtable m a = leb rdata_lo (dword m a) && ltb (dword m a) rdata_hi

-- refs[j] - 0x200, in 32 bits
abbrev pub stop_at : ℕ → ℕ
stop_at ref = (ref + 2 ^ 32 - 0x200) % 2 ^ 32

-- for (; a > ref - 0x200 && a > 0x10000; a -= 4), in which a stays above 0: the owner, if there is
-- one. Recursion is on the rounds left; 129 are enough.
unfoldable pub owner_from : (rounds : ℕ) → Memory → (ref a : ℕ) → Option ℕ
unfolding is_vtable
owner_from zero m ref a = none
owner_from (suc n) m ref a =
    let rest = owner_from n m ref (a - 4) in
    if ltb (stop_at ref) a && ltb 0x10000 a then if is_vtable m a then some a else rest else none

-- refs[j] & ~3u
unfoldable pub owner_of : Memory → ℕ → Option ℕ
unfolding owner_from
owner_of m ref = owner_from 129 m ref (ref - ref % 4)

-- The owner is the nearest vtable at or before `a` within reach; with none, there is no vtable there.
abbrev pub Nearest : Memory → (ref a : ℕ) → Option ℕ → Type 0
Nearest m ref a none =
    (b : ℕ) → b % 4 ≡ 0 → stop_at ref < b → 0x10000 < b → b ≤ a → is_vtable m b ≡ false
Nearest m ref a (some o) =
    (is_vtable m o ≡ true)
    × (o % 4 ≡ 0)
    × (stop_at ref < o)
    × (0x10000 < o)
    × (o ≤ a)
    × ((b : ℕ) → b % 4 ≡ 0 → o < b → b ≤ a → is_vtable m b ≡ false)

module _ (m : Memory) (ref : ℕ) where
  further :
      (a : ℕ) (o : Option ℕ)
      → a % 4 ≡ 0
      → 0x10000 < a
      → is_vtable m a ≡ false
      → Nearest m ref (a - 4) o
      → Nearest m ref a o
  further a none e h f w = λ b d p q r. elim (Bool-cases (b == a)) [
    | inl same ↦ rw ((==_iff b a).0 same) f
    | inr less ↦ w b d p q (ground arith)
  ]
  further a (some o) e h f w = (
    w.0,
    w.1,
    w.2,
    w.3,
    omega (arith, w.4),
    λ b d p r. elim (Bool-cases (b == a)) [
      | inl same ↦ rw ((==_iff b a).0 same) f
      | inr less ↦ w.5 b d p (ground arith)
    ],
  )

  owner_from-Nearest :
      (n a : ℕ) → a % 4 ≡ 0 → a ≤ stop_at ref + 4 * n → Nearest m ref a (owner_from n m ref a)
  unfolding owner_from
  owner_from-Nearest zero a e h = λ b d p q r. absurd (omega arith)
  owner_from-Nearest (suc n) a e h =
      if_cases (Nearest m ref a) (ltb (stop_at ref) a && ltb 0x10000 a)
        (λ on.
          if_cases (Nearest m ref a) (is_vtable m a)
            (λ v. (v, e, ground arith, ground arith, omega arith, λ b d p q. absurd (omega arith)))
            (λ v.
              further a (owner_from n m ref (a - 4)) e (ground arith) v
                (owner_from-Nearest n (a - 4) (ground arith) (ground arith))))
        (λ off b d p q r. absurd (ground arith))

  -- For a reference below 2 ^ 32 the walk back finds the nearest aligned word at or before it,
  -- less than 0x200 back and above 0x10000, that points into the game's read-only data; if it
  -- finds none, there is none.
  pub owner_of-Nearest : ref < 2 ^ 32 → Nearest m ref (ref - ref % 4) (owner_of m ref)
  unfolding owner_of
  owner_of-Nearest h = owner_from-Nearest 129 (ref - ref % 4) (omega arith) (omega arith)
