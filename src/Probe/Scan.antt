-- ===== src/Probe/Scan.antt =====
-- The scans of tools/re-probe/probe.c and their likes: addresses that hold a word or a text, and the
-- object that a reference lies in. A loop over a region recurs on the rounds left: a region lies
-- below the end of the address space, so the pointer of the loop does not come round.
pub mod Places
pub mod Exact
pub mod Owner
use crossover.Prelude.{
  ℕ, zero, suc, ◌+◌, ◌-◌, ◌*◌, ◌/◌, ◌%◌, Bool, true, false, not, ◌&&◌, ◌||◌, List, [], ◌∷◌, ◌++◌,
  Option, none, some, leb, ltb, ◌==◌, if◌then◌else◌, length,
}
use crossover.Probe.Memory.{Memory, dword, read_bytes, word16}
use crossover.Probe.Regions.{
  Region, region_ok, private_region_ok, mem_commit, page_guard, page_noaccess, page_readwrite,
  page_execute_readwrite, protects, own_stack_in, walk,
}

-- `out` and `found`.
pub record Found : Type 0 where
  pub out : List ℕ
  pub found : ℕ

abbrev pub none_found : Found
none_found = record { out = []; found = 0 }

-- if (found < max_out) out[found] = p; found++
unfoldable pub note : ℕ → ℕ → Found → Found
note max_out p f =
    if ltb f.found max_out
    then record { out = f.out ++ p ∷ []; found = f.found + 1 }
    else record f { found = f.found + 1 }

module _ (test : ℕ → Bool) (max_out : ℕ) where
  -- for (; p <= e; p += step) if (test) ...
  unfoldable pub scan_from : (step rounds p : ℕ) → Found → Found
  unfolding note
  scan_from step zero p f = f
  scan_from step (suc n) p f = scan_from step n (p + step) (if test p then note max_out p f else f)

-- How many places at this step have `k` bytes of the region before them.
abbrev pub rounds : (size k step : ℕ) → ℕ
rounds size k step = (size + step - k) / step

module _ (m : Memory) where
  -- The bytes of a text at an address: memcmp(p, s, len) == 0
  unfoldable pub same_bytes : List ℕ → ℕ → Bool
  same_bytes [] p = true
  same_bytes (c ∷ cs) p = m p == c && same_bytes cs (p + 1)

  -- *p == s[0] && memcmp(p, s, len) == 0 && p[len] == 0
  unfoldable pub text_at : List ℕ → ℕ → Bool
  unfolding same_bytes
  text_at [] p = same_bytes [] p && m p == 0
  text_at (c ∷ cs) p = m p == c && (same_bytes (c ∷ cs) p && m (p + length (c ∷ cs)) == 0)

-- The condition of scan_ptr_to and scan_vtable of console.c.
unfoldable pub writable_not_own : ℕ → Region → Bool
unfolding protects own_stack_in
writable_not_own own_stack r =
    not (own_stack_in own_stack r)
    && (r.state == mem_commit
        && (not (protects (page_guard + page_noaccess) r)
            && protects (page_readwrite + page_execute_readwrite) r))

module _ (query : ℕ → Option Region) (fuel : ℕ) (m : Memory) where
  -- scan_dword of probe.c and menu-entry.c
  unfoldable pub scan_dword : (own_stack v max_out : ℕ) → Option Found
  unfolding walk scan_from region_ok
  scan_dword own_stack v max_out =
      walk query (region_ok own_stack)
        (λ r. scan_from (λ p. dword m p == v) max_out 4 (rounds r.size 4 4) r.base) fuel 0
        none_found

  -- scan_dword of def-map.c and ui-probe.c
  unfoldable pub scan_private_dword : (own_stack v max_out : ℕ) → Option Found
  unfolding walk scan_from private_region_ok
  scan_private_dword own_stack v max_out =
      walk query (private_region_ok own_stack)
        (λ r. scan_from (λ p. dword m p == v) max_out 4 (rounds r.size 4 4) r.base) fuel 0
        none_found

  -- scan_ptr_to (k is 4) and scan_vtable (k is 0x80) of console.c
  unfoldable pub scan_writable : (k own_stack v max_out : ℕ) → Option Found
  unfolding walk scan_from writable_not_own
  scan_writable k own_stack v max_out =
      walk query (writable_not_own own_stack)
        (λ r. scan_from (λ p. dword m p == v) max_out 4 (rounds r.size k 4) r.base) fuel 0
        none_found

  unfoldable pub find_string : (own_stack : ℕ) (s : List ℕ) (max_out : ℕ) → Option Found
  unfolding walk scan_from region_ok text_at
  find_string own_stack s max_out =
      walk query (region_ok own_stack)
        (λ r. scan_from (text_at m s) max_out 1 (rounds r.size (length s + 1) 1) r.base) fuel 0
        none_found
