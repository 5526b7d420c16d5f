-- ===== src/Probe/Regions.antt =====
-- The walk over the address space that the probes of tools/re-probe share. VirtualQuery is a
-- parameter: for an address, the region that it reports, or nothing where it fails. A thread's own
-- stack is the address of a local, 0 before it is set.
pub mod Chain
pub mod Limit
use Prim.Native.Nat.{bit_and, bit_or}
use crossover.Prelude.{
  ℕ, zero, suc, ◌+◌, ◌-◌, ◌%◌, ◌^◌, Bool, true, false, not, ◌&&◌, ◌||◌, List, [], ◌∷◌, Option, none,
  some, leb, ltb, ◌==◌, if◌then◌else◌,
}

-- BaseAddress, RegionSize, State, Type and Protect of MEMORY_BASIC_INFORMATION.
pub record Region : Type 0 where
  pub base : ℕ
  pub size : ℕ
  pub state : ℕ
  pub kind : ℕ
  pub protect : ℕ

abbrev pub mem_commit : ℕ
mem_commit = 0x1000

abbrev pub mem_private : ℕ
mem_private = 0x20000

abbrev pub page_noaccess : ℕ
page_noaccess = 0x01

abbrev pub page_readonly : ℕ
page_readonly = 0x02

abbrev pub page_readwrite : ℕ
page_readwrite = 0x04

abbrev pub page_writecopy : ℕ
page_writecopy = 0x08

abbrev pub page_execute_read : ℕ
page_execute_read = 0x20

abbrev pub page_execute_readwrite : ℕ
page_execute_readwrite = 0x40

abbrev pub page_execute_writecopy : ℕ
page_execute_writecopy = 0x80

abbrev pub page_guard : ℕ
page_guard = 0x100

-- mbi->Protect & mask, as a condition
unfoldable pub protects : ℕ → Region → Bool
protects mask r = not (bit_and r.protect mask == 0)

-- base + RegionSize, in a 32-bit pointer
unfoldable pub next_of : Region → ℕ
next_of r = (r.base + r.size) % 2 ^ 32

unfoldable pub own_stack_in : ℕ → Region → Bool
unfolding next_of
own_stack_in stack r = not (stack == 0) && (leb r.base stack && ltb stack (next_of r))

-- region_ok of probe.c and menu-entry.c
unfoldable pub region_ok : ℕ → Region → Bool
unfolding protects own_stack_in
region_ok stack r =
    if own_stack_in stack r
    then false
    else r.state == mem_commit
      && (not (protects (page_guard + page_noaccess) r)
          && protects (page_readwrite + page_readonly + page_execute_read + page_execute_readwrite)
              r)

-- region_ok of def-map.c and ui-probe.c
unfoldable pub private_region_ok : ℕ → Region → Bool
unfolding protects own_stack_in
private_region_ok stack r =
    if own_stack_in stack r
    then false
    else (r.state == mem_commit && r.kind == mem_private)
      && (not (protects (page_guard + page_noaccess) r)
          && protects (page_readwrite + page_execute_readwrite) r)

-- readable of menu-label.c, menu-utf16.c and their likes
unfoldable pub readable_region : Region → Bool
unfolding protects
readable_region r =
    r.state == mem_commit
    && (not (protects (page_guard + page_noaccess) r)
        && protects
            (page_readonly + page_readwrite + page_writecopy + page_execute_read
              + page_execute_readwrite + page_execute_writecopy)
            r)

module _ {S : Type 0} (ok : Region → Bool) (visit : Region → S → S) where
  abbrev pub visited : Region → S → S
  visited r s = if ok r then visit r s else s

  -- The body of the while loop of the scans, for the query's answer.
  abbrev pub walk_on : Option Region → ℕ → S → (ℕ → S → Option S) → Option S
  walk_on none addr s rest = some s
  walk_on (some r) addr s rest =
      if leb (next_of r) addr then some (visited r s) else rest (next_of r) (visited r s)

  -- The body of the while loop of walk_memory.
  abbrev pub walk_memory_on : Option Region → S → (ℕ → S → Option S) → Option S
  walk_memory_on none s rest = some s
  walk_memory_on (some r) s rest =
      if r.size == 0 then some (visited r s) else rest (next_of r) (visited r s)

-- `limit`
abbrev pub walk_limit : ℕ
walk_limit = 0x7FFF0000

module _ {S : Type 0} (query : ℕ → Option Region) (ok : Region → Bool)
    (visit : Region → S → S) where
  -- From one region to the next, until the query fails or the address space comes round. `none`
  -- would say that the fuel ran out.
  unfoldable pub walk : ℕ → ℕ → S → Option S
  unfolding next_of
  walk zero addr s = none
  walk (suc fuel) addr s = walk_on ok visit (query addr) addr s (walk fuel)

  -- The loop of walk_memory and scan of the later probes, which stop at a fixed address.
  unfoldable pub walk_memory : ℕ → ℕ → S → Option S
  unfolding next_of
  walk_memory zero addr s = none
  walk_memory (suc fuel) addr s =
      if not (ltb addr walk_limit)
      then some s
      else walk_memory_on ok visit (query addr) s (walk_memory fuel)
