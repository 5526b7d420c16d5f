-- ===== src/Probe/Replace.antt =====
-- tools/re-probe/menu-mods.c: every wide copy of `Quit` in private memory becomes `Mods`. g_hits is a
-- list, whose length is g_nhits.
pub mod Applied
pub mod Whole
use crossover.Prelude.{
  ℕ, zero, suc, ◌+◌, ◌-◌, ◌*◌, ◌/◌, Bool, true, false, not, ◌&&◌, ◌||◌, List, [], ◌∷◌, ◌++◌, Option,
  leb, ltb, ◌==◌, if◌then◌else◌, length,
}
use crossover.Probe.Memory.{Memory, word16, write_bytes}
use crossover.Probe.Regions.{
  Region, mem_commit, mem_private, page_guard, page_noaccess, page_readwrite, page_writecopy,
  page_execute_readwrite, page_execute_writecopy, protects, walk_memory,
}
use crossover.Probe.Scan.{rounds, same_bytes}
use crossover.Probe.Hunt.{start_address, is_self}

-- The bytes of FROM and TO, without the terminator.
abbrev pub from : List ℕ
from = b'Q' ∷ 0 ∷ b'u' ∷ 0 ∷ b'i' ∷ 0 ∷ b't' ∷ 0 ∷ []

abbrev pub to : List ℕ
to = b'M' ∷ 0 ∷ b'o' ∷ 0 ∷ b'd' ∷ 0 ∷ b's' ∷ 0 ∷ []

abbrev pub max_hits : ℕ
max_hits = 64

-- readable
unfoldable pub replaceable : Region → Bool
unfolding protects
replaceable r =
    r.state == mem_commit
    && (not (protects (page_guard + page_noaccess) r)
        && (r.kind == mem_private
            && protects
                (page_readwrite + page_writecopy + page_execute_readwrite + page_execute_writecopy)
                r))

-- memcmp(base + off, FROM, n * 2) == 0, and a 0 behind it
unfoldable pub is_from : Memory → ℕ → Bool
unfolding same_bytes
is_from m p = same_bytes m from p && word16 m (p + 8) == 0

-- The loop over one region.
unfoldable pub hits_from : Memory → (n p : ℕ) → List ℕ → List ℕ
unfolding is_from
hits_from m zero p hits = hits
hits_from m (suc n) p hits =
    hits_from m n (p + 2)
      (if is_from m p && ltb (length hits) max_hits then hits ++ p ∷ [] else hits)

unfoldable pub find_all :
    (query : ℕ → Option Region) (fuel self_lo self_hi : ℕ) → Memory → Option (List ℕ)
unfolding walk_memory replaceable hits_from
find_all query fuel self_lo self_hi m =
    walk_memory query
      (λ r. replaceable r && (leb 0x100 r.size && not (is_self self_lo self_hi r.base)))
      (λ r. hits_from m (rounds r.size 10 2) r.base) fuel start_address []

-- One hit: the memory after it, and whether it was written. `opens` is VirtualProtect.
unfoldable pub apply_one : (opens : ℕ → Bool) → ℕ → Memory → Memory × Bool
unfolding same_bytes write_bytes
apply_one opens p m =
    if same_bytes m to p
    then (m, false)
    else if not (opens p)
    then (m, false)
    else (write_bytes m p to, true)

unfoldable pub apply : (opens : ℕ → Bool) → List ℕ → Memory → Memory × ℕ
unfolding apply_one
apply opens [] m = (m, 0)
apply opens (p ∷ ps) m =
    let (m', wrote) = apply_one opens p m in
    let (k, n) = apply opens ps m' in (k, if wrote then suc n else n)
