-- ===== src/Probe/Append.antt =====
-- tools/re-probe/menu-append.c: every screen and every list gains a duplicate of its last child.
-- The recorded definitions are a list, whose length is `g_seen_n`.
pub mod Children
pub mod Extended
pub mod Once
use crossover.Prelude.{
  ℕ, zero, suc, ◌+◌, ◌-◌, ◌*◌, ◌/◌, Bool, true, false, not, ◌&&◌, ◌||◌, List, [], ◌∷◌, ◌++◌, leb,
  ltb, ◌==◌, if◌then◌else◌, length,
}
use crossover.Probe.Memory.{Memory, dword, dwords, store, plausible}
use crossover.Probe.Layout.{
  def_id, def_child_begin, def_child_end, def_child_cap, copy_from, child_begin, child_end,
  child_count, repoint,
}
use crossover.Probe.Breakpoint.{Hook, def_type}

abbrev pub type_screen : ℕ
type_screen = 0x0A

abbrev pub type_list : ℕ
type_list = 0x0C

abbrev pub pool_slots : ℕ
pool_slots = 128

abbrev pub pool_elems : ℕ
pool_elems = 64

abbrev pub max_defs : ℕ
max_defs = 32

pub record SeenDef : Type 0 where
  pub def : ℕ
  pub id : ℕ
  pub type : ℕ
  pub n : ℕ
  pub ids : List ℕ
  pub patched : Bool

-- `g_pool`, 0 where the allocation failed, `g_pool_next` and `g_seen`.
pub record Pool : Type 0 where
  pub base : ℕ
  pub next : ℕ
  pub seen : List SeenDef

abbrev pub pool_bytes : ℕ
pool_bytes = pool_slots * pool_elems * 4

unfoldable pub in_pool : ℕ → ℕ → Bool
in_pool pool p = leb pool p && ltb p (pool + pool_bytes)

-- The early returns of extend_screen, in its order.
unfoldable pub extends : ℕ → Hook Pool → Bool
unfolding in_pool
extends def h =
    not (h.own.base == 0)
    && (plausible def
        && ((dword h.mem (def + def_type) == type_screen
              || dword h.mem (def + def_type) == type_list)
            && (not (in_pool h.own.base (child_begin h.mem def))
                && (plausible (child_begin h.mem def)
                    && (ltb (child_begin h.mem def) (child_end h.mem def)
                        && (leb (child_end h.mem def - child_begin h.mem def) 0x200
                            && (not (child_count h.mem def == 0)
                                && (ltb (child_count h.mem def + 1) pool_elems
                                    && (ltb h.own.next pool_slots
                                        && ltb (length h.own.seen) max_defs)))))))))

-- nv
abbrev pub slot : Pool → ℕ
slot p = p.base + p.next * pool_elems * 4

-- The copy and its extra element.
unfoldable pub fill_slot : (nv b n : ℕ) → Memory → Memory
unfolding copy_from
fill_slot nv b n m =
    let copied = copy_from (λ x. x) n 0 b nv m in
    store copied (nv + n * 4) (dword copied (nv + (n - 1) * 4))

unfoldable pub seen_def : (def type nv n : ℕ) → Memory → SeenDef
seen_def def type nv n m = record {
  def = def;
  id = dword m (def + def_id);
  type = type;
  n = n;
  ids = dwords m nv n;
  patched = true;
}

-- What follows the guards.
unfoldable pub extend : ℕ → Hook Pool → Hook Pool
unfolding fill_slot repoint seen_def
extend def h =
    let nv = slot h.own in
    let n = child_count h.mem def in
    let filled = fill_slot nv (child_begin h.mem def) n h.mem in
    record h {
      mem = repoint def nv (nv + (n + 1) * 4) filled;
      own = record {
        base = h.own.base;
        next = h.own.next + 1;
        seen = h.own.seen ++ seen_def def (dword h.mem (def + def_type)) nv n filled ∷ [];
      };
    }

unfoldable pub extend_screen : ℕ → Hook Pool → Hook Pool
unfolding extends extend
extend_screen def h = if extends def h then extend def h else h
