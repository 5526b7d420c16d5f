-- ===== src/Probe/Append/Children.antt =====
-- The child list of a definition before and after extend_screen.
use crossover.Prelude.{
  ℕ, suc, ◌+◌, ◌-◌, ◌*◌, ◌^◌, ◌≤◌, ◌<◌, ◌≡◌, ◌⊎◌, refl, ap, ◌∙◌, List, [], ◌∷◌, ◌++◌, map, arith,
}
use crossover.Probe.Memory.{
  Memory, IsMemory, dword, dwords, store, Apart, dword-store, store_outside, dwords-store-Apart,
  dword-lt, dwords_snoc, dwords-dword,
}
use crossover.Probe.Layout.{copy_from}
use crossover.Probe.Layout.Copying.{copy_from-IsMemory, copy_from_outside, dwords-copy}
use crossover.Probe.Append.{fill_slot}

map_id {ℓ} : {A : Type ℓ} (xs : List A) → map (λ x. x) xs ≡ xs
map_id [] = refl
map_id (x ∷ xs) = ap (◌∷◌ x) (map_id xs)

-- The slot, in a memory where it is apart from the list.
module _ (m : Memory) (nv b n : ℕ) (bytes : IsMemory m) (apart : Apart b (4 * n) nv (4 * n)) where
  pub dwords-fill_slot :
      (0 < n)
      → dwords (fill_slot nv b n m) nv (suc n) ≡ dwords m b n ++ dword m (b + 4 * (n - 1)) ∷ []
  unfolding fill_slot
  dwords-fill_slot some_child =
      let c = copy_from (λ x. x) n 0 b nv m in
      let copied : dwords c nv n ≡ dwords m b n =
        dwords-copy (λ x. x) (λ v h. h) m nv b n bytes apart ∙ map_id (dwords m b n) in
      let v = dword c (nv + (n - 1) * 4) in
      let e : nv + n * 4 ≡ nv + 4 * n = omega arith in
      let g : nv + (n - 1) * 4 ≡ nv + 4 * (n - 1) = omega arith in
      let old : dwords (store c (nv + n * 4) v) nv n ≡ dwords m b n =
        dwords-store-Apart c (nv + n * 4) v nv n (ground arith) ∙ copied in
      let small : v < 2 ^ 32 =
        dword-lt c (nv + (n - 1) * 4) (copy_from-IsMemory (λ x. x) n 0 b nv m bytes) in
      let last : v ≡ dword m (b + 4 * (n - 1)) =
        rw g (dwords-dword c m nv b n (n - 1) copied (omega arith)) in
      let new : dword (store c (nv + n * 4) v) (nv + 4 * n) ≡ v =
        rw e (dword-store c (nv + 4 * n) v small) in
      dwords_snoc (store c (nv + n * 4) v) nv n ∙ ground arith

-- The slot is written, and nothing else.
pub fill_slot_outside :
    (nv b n : ℕ) (m : Memory) (x : ℕ)
    → (x < nv) ⊎ (nv + (n + 1) * 4 ≤ x)
    → fill_slot nv b n m x ≡ m x
unfolding fill_slot
fill_slot_outside nv b n m x h =
    let c = copy_from (λ x. x) n 0 b nv m in
    let v = dword c (nv + (n - 1) * 4) in
    ground (arith, store_outside c (nv + n * 4) v x, copy_from_outside (λ x. x) n 0 b nv m x)
