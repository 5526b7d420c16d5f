-- ===== src/Probe/Hunt/Enclosing.antt =====
-- What the hunts return.
use crossover.Prelude.{
  ℕ, zero, suc, ◌+◌, ◌^◌, ◌≤◌, ◌<◌, ◌≡◌, inl, inr, Bool, true, Option, none, some, arith,
  Bool-cases,
}
use crossover.Probe.Memory.{Memory, dword}
use crossover.Probe.Breakpoint.{def_type}
use crossover.Probe.Layout.{def_id}
use crossover.Probe.Regions.{Region}
use crossover.Probe.Regions.Chain.{IsQuery}
use crossover.Probe.Regions.Limit.{returned}
use crossover.Probe.Scan.{rounds}
use crossover.Probe.Hunt.{
  is_def, def_bytes, hunted, first_place, Owner, encloses, owner_at, find_owner_cb, find_owner,
  start_address,
}

first_place-passes :
    (test : ℕ → Bool) (n p : ℕ) {a : ℕ} → first_place test n p ≡ some a → test a ≡ true
unfolding first_place
first_place-passes test zero p e = cc
first_place-passes test (suc n) p e = elim (Bool-cases (test p)) [
  | inl here ↦ ground arith
  | inr later ↦ first_place-passes test n (p + 4) (ground arith)
]

module _ (m : Memory) (addr : ℕ) where
  -- An owner is a definition around the address, as it stands in memory.
  abbrev pub IsOwner : Option Owner → Type 0
  IsOwner none = Unit
  IsOwner (some o) =
      (is_def m o.def ≡ true)
      × (o.def + o.off ≡ addr)
      × (o.off < def_bytes)
      × (o.id ≡ dword m (o.def + def_id))
      × (o.type ≡ dword m (o.def + def_type))

  owner_at-IsOwner :
      (o : Option ℕ)
      → ((p : ℕ) → o ≡ some p → encloses m addr p ≡ true)
      → IsOwner (owner_at m addr o)
  unfolding encloses
  owner_at-IsOwner none h = tt
  owner_at-IsOwner (some p) h = ground (arith, h p)

  find_owner_cb-IsOwner :
      (r : Region) (o : Option Owner) → IsOwner o → IsOwner (find_owner_cb m addr r o)
  unfolding find_owner_cb
  find_owner_cb-IsOwner r (some o) g = g
  find_owner_cb-IsOwner r none g =
      owner_at-IsOwner (first_place (encloses m addr) (rounds r.size def_bytes 4) r.base)
        (λ p e. first_place-passes (encloses m addr) (rounds r.size def_bytes 4) r.base e)

  module _ (query : ℕ → Option Region) (q : IsQuery query) (fuel lo hi : ℕ)
      (enough : 2 ^ 32 ≤ fuel) where
    -- Whatever find_owner returns is a definition that the address stands in.
    pub find_owner-IsOwner :
        (o : Option Owner) × (find_owner query fuel lo hi m addr ≡ some o) × IsOwner o
    unfolding find_owner
    find_owner-IsOwner =
        returned query (hunted lo hi) (find_owner_cb m addr) IsOwner
          (λ r s e g. find_owner_cb-IsOwner r s g) q fuel start_address none (omega (arith, enough))
          (omega arith) tt
