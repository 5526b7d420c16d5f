-- ===== src/Probe/Hunt.antt =====
-- The hunts of tools/re-probe/menu-strings.c and menu-utf16.c: for a definition by its id, for a text,
-- for the pointers to it, and for the definition that a pointer stands in. Each visits the readable
-- regions by walk_memory. In menu-utf16.c the probe's own image is passed over, `self`.
pub mod Enclosing
use crossover.Prelude.{
  ℕ, zero, suc, ◌+◌, ◌-◌, ◌*◌, ◌/◌, Bool, true, false, not, ◌&&◌, ◌||◌, List, [], ◌∷◌, ◌++◌, Option,
  none, some, leb, ltb, ◌==◌, if◌then◌else◌, length,
}
use crossover.Probe.Memory.{Memory, dword}
use crossover.Probe.Breakpoint.{def_type}
use crossover.Probe.Layout.{def_id}
use crossover.Probe.Regions.{Region, readable_region, walk_memory}
use crossover.Probe.Scan.{rounds}

abbrev pub cuidef_vtable : ℕ
cuidef_vtable = 0x01259F8C

-- The bytes that a definition must have behind it.
abbrev pub def_bytes : ℕ
def_bytes = 0x200

abbrev pub is_def : Memory → ℕ → Bool
is_def m p = dword m p == cuidef_vtable

-- IS_SELF(base), for the image between `lo` and `hi`
abbrev pub is_self : (lo hi : ℕ) → ℕ → Bool
is_self lo hi p = leb lo p && ltb p hi

unfoldable pub hunted : (lo hi : ℕ) → Region → Bool
unfolding readable_region
hunted lo hi r = readable_region r && (leb 0x400 r.size && not (is_self lo hi r.base))

-- The first place of a region that passes, in the loop of find_def_cb and find_owner_cb.
unfoldable pub first_place : (ℕ → Bool) → (n p : ℕ) → Option ℕ
first_place test zero p = none
first_place test (suc n) p =
    let rest = first_place test n (p + 4) in if test p then some p else rest

-- find_def_cb: `f->def`, once it is found, stays.
unfoldable pub find_def_cb : Memory → ℕ → Region → Option ℕ → Option ℕ
unfolding first_place
find_def_cb m id r (some def) = some def
find_def_cb m id r none =
    first_place (λ p. is_def m p && dword m (p + def_id) == id) (rounds r.size def_bytes 4) r.base

-- OwnerCtx
pub record Owner : Type 0 where
  pub def : ℕ
  pub id : ℕ
  pub type : ℕ
  pub off : ℕ

unfoldable pub encloses : Memory → (addr p : ℕ) → Bool
encloses m addr p = is_def m p && (leb p addr && ltb addr (p + def_bytes))

abbrev pub owner_at : Memory → ℕ → Option ℕ → Option Owner
owner_at m addr none = none
owner_at m addr (some p) =
    some
      (record { def = p; id = dword m (p + def_id); type = dword m (p + def_type); off = addr - p })

unfoldable pub find_owner_cb : Memory → ℕ → Region → Option Owner → Option Owner
unfolding first_place encloses
find_owner_cb m addr r (some o) = some o
find_owner_cb m addr r none =
    owner_at m addr (first_place (encloses m addr) (rounds r.size def_bytes 4) r.base)

-- RefCtx of menu-utf16.c
pub record Refs : Type 0 where
  pub holders : List ℕ
  pub vals : List ℕ

abbrev pub max_refs : ℕ
max_refs = 64

-- The loop of find_refs_cb, which returns once the holders are full.
unfoldable pub refs_from : Memory → (lo hi n p : ℕ) → Refs → Refs
refs_from m lo hi zero p r = r
refs_from m lo hi (suc n) p r =
    let v = dword m p in
    let on = refs_from m lo hi n (p + 4) r in
    let added =
      refs_from m lo hi n (p + 4)
        (record { holders = r.holders ++ p ∷ []; vals = r.vals ++ v ∷ [] }) in
    if ltb v lo || leb hi v then on else if ltb (length r.holders) max_refs then added else r

unfoldable pub find_refs_cb : Memory → (lo hi : ℕ) → Region → Refs → Refs
unfolding refs_from
find_refs_cb m lo hi r c = refs_from m lo hi (rounds r.size 4 4) r.base c

abbrev pub start_address : ℕ
start_address = 0x10000

module _ (query : ℕ → Option Region) (fuel : ℕ) (self_lo self_hi : ℕ) (m : Memory) where
  unfoldable pub find_def : (id : ℕ) → Option (Option ℕ)
  unfolding walk_memory hunted find_def_cb
  find_def id =
      walk_memory query (hunted self_lo self_hi) (find_def_cb m id) fuel start_address none

  unfoldable pub find_owner : (addr : ℕ) → Option (Option Owner)
  unfolding walk_memory hunted find_owner_cb
  find_owner addr =
      walk_memory query (hunted self_lo self_hi) (find_owner_cb m addr) fuel start_address none

  unfoldable pub find_refs : (lo hi : ℕ) → Option Refs
  unfolding walk_memory hunted find_refs_cb
  find_refs lo hi =
      walk_memory query (hunted self_lo self_hi) (find_refs_cb m lo hi) fuel start_address
        (record { holders = []; vals = [] })
