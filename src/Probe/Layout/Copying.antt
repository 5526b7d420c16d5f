-- ===== src/Probe/Layout/Copying.antt =====
-- Copying a child list, and giving a definition another one.
use crossover.Prelude.{ℕ, zero, suc, ◌+◌, ◌*◌, ◌^◌, ◌≤◌, ◌<◌, ◌≡◌, ◌⊎◌, refl, map, arith}
use crossover.Probe.Memory.{
  Memory, IsMemory, dword, dwords, store, Apart, dword-store, dword-store-Apart, store_outside,
  dwords-store-Apart, store-IsMemory, dword-lt, dword_same,
}
use crossover.Probe.Layout.{def_child_begin, def_child_end, def_child_cap, copy_from, repoint}

pub copy_from-IsMemory :
    (f : ℕ → ℕ) (r k b nv : ℕ) (m : Memory) → IsMemory m → IsMemory (copy_from f r k b nv m)
unfolding copy_from
copy_from-IsMemory f zero k b nv m h = h
copy_from-IsMemory f (suc r) k b nv m h =
    copy_from-IsMemory f r (k + 1) b nv (store m (nv + k * 4) (f (dword m (b + k * 4))))
      (store-IsMemory m (nv + k * 4) (f (dword m (b + k * 4))) h)

-- The copy writes nowhere but in its own words.
pub copy_from_outside :
    (f : ℕ → ℕ) (r k b nv : ℕ) (m : Memory) (x : ℕ)
    → (x < nv + k * 4) ⊎ (nv + (k + r) * 4 ≤ x)
    → copy_from f r k b nv m x ≡ m x
unfolding copy_from
copy_from_outside f zero k b nv m x h = refl
copy_from_outside f (suc r) k b nv m x h =
    let v = f (dword m (b + k * 4)) in
    ground (
      arith,
      copy_from_outside f r (k + 1) b nv (store m (nv + k * 4) v) x,
      store_outside m (nv + k * 4) v x,
    )

dwords-copy_from :
    (f : ℕ → ℕ) (word : (v : ℕ) → v < 2 ^ 32 → f v < 2 ^ 32) (r k b nv : ℕ) (m : Memory)
    → IsMemory m
    → Apart (b + k * 4) (4 * r) (nv + k * 4) (4 * r)
    → dwords (copy_from f r k b nv m) (nv + k * 4) r ≡ map f (dwords m (b + k * 4) r)
unfolding copy_from dwords
dwords-copy_from f word zero k b nv m i h = refl
dwords-copy_from f word (suc r) k b nv m i h =
    let v = f (dword m (b + k * 4)) in
    let m' = store m (nv + k * 4) v in
    let e : nv + (k + 1) * 4 ≡ nv + k * 4 + 4 = omega arith in
    let g : b + (k + 1) * 4 ≡ b + k * 4 + 4 = omega arith in
    let kept : dword (copy_from f r (k + 1) b nv m') (nv + k * 4) ≡ dword m' (nv + k * 4) =
      dword_same m' (copy_from f r (k + 1) b nv m') (nv + k * 4)
        (λ x p q. copy_from_outside f r (k + 1) b nv m' x (ground arith)) in
    let rest : dwords (copy_from f r (k + 1) b nv m') (nv + k * 4 + 4) r
        ≡ map f (dwords m' (b + k * 4 + 4) r) =
      rw (← e, ← g)
        (dwords-copy_from f word r (k + 1) b nv m' (store-IsMemory m (nv + k * 4) v i)
          (ground arith)) in
    ground (
      arith,
      dword-store m (nv + k * 4) v (word (dword m (b + k * 4)) (dword-lt m (b + k * 4) i)),
      dwords-store-Apart m (nv + k * 4) v (b + k * 4 + 4) r,
    )

module _ (f : ℕ → ℕ) (word : (v : ℕ) → v < 2 ^ 32 → f v < 2 ^ 32) (m : Memory) (nv b n : ℕ)
    (bytes : IsMemory m) (apart : Apart b (4 * n) nv (4 * n)) where
  pub dwords-copy : dwords (copy_from f n 0 b nv m) nv n ≡ map f (dwords m b n)
  dwords-copy =
      let e : nv + 0 * 4 ≡ nv = omega arith in
      let g : b + 0 * 4 ≡ b = omega arith in
      rw (e, g) at (dwords-copy_from f word n 0 b nv m bytes (ground arith))

module _ (m : Memory) (def nv end : ℕ) (small : nv < 2 ^ 32) (small' : end < 2 ^ 32) where
  pub repoint_begin : dword (repoint def nv end m) (def + def_child_begin) ≡ nv
  unfolding repoint
  repoint_begin =
      let m1 = store m (def + def_child_begin) nv in
      let m2 = store m1 (def + def_child_end) end in
      ground (
        arith,
        dword-store-Apart m2 (def + def_child_cap) end (def + def_child_begin),
        dword-store-Apart m1 (def + def_child_end) end (def + def_child_begin),
        dword-store m (def + def_child_begin) nv,
      )

  pub repoint_end : dword (repoint def nv end m) (def + def_child_end) ≡ end
  unfolding repoint
  repoint_end =
      let m1 = store m (def + def_child_begin) nv in
      let m2 = store m1 (def + def_child_end) end in
      ground (
        arith,
        dword-store-Apart m2 (def + def_child_cap) end (def + def_child_end),
        dword-store m1 (def + def_child_end) end,
      )

  pub repoint_cap : dword (repoint def nv end m) (def + def_child_cap) ≡ end
  unfolding repoint
  repoint_cap =
      dword-store (store (store m (def + def_child_begin) nv) (def + def_child_end) end)
        (def + def_child_cap) end small'

  pub repoint_outside : (x : ℕ) → (x < def + 0x70) ⊎ (def + 0x7C ≤ x) → repoint def nv end m x ≡ m x
  unfolding repoint
  repoint_outside x h =
      let m1 = store m (def + def_child_begin) nv in
      let m2 = store m1 (def + def_child_end) end in
      ground (
        arith,
        store_outside m2 (def + def_child_cap) end x,
        store_outside m1 (def + def_child_end) end x,
        store_outside m (def + def_child_begin) nv x,
      )
