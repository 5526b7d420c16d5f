-- ===== src/Probe/Survey.antt =====
-- tools/re-probe/menu-label.c: the definitions that its scan finds, the look-up by id, and the walk
-- through a definition's children.
pub mod Tree
use crossover.Prelude.{
  ℕ, zero, suc, ◌+◌, ◌-◌, ◌*◌, ◌/◌, Bool, true, false, not, ◌&&◌, ◌||◌, List, [], ◌∷◌, ◌++◌, Option,
  none, some, leb, ltb, ◌==◌, if◌then◌else◌, length,
}
use crossover.Probe.Memory.{Memory, dword, dwords, plausible}
use crossover.Probe.Breakpoint.{def_type}
use crossover.Probe.Layout.{def_id, child_begin, child_end}
use crossover.Probe.Regions.{Region, readable_region, walk_memory}
use crossover.Probe.Scan.{rounds}
use crossover.Probe.Hunt.{is_def, def_bytes, start_address}

pub record FoundDef : Type 0 where
  pub def : ℕ
  pub id : ℕ
  pub type : ℕ

abbrev pub max_found : ℕ
max_found = 4096

-- The loop over one region: g_found, whose length is g_found_n.
unfoldable pub defs_from : Memory → (n p : ℕ) → List FoundDef → List FoundDef
defs_from m zero p found = found
defs_from m (suc n) p found = defs_from m n (p + 4) (
    if is_def m p && ltb (length found) max_found
    then found ++ record { def = p; id = dword m (p + def_id); type = dword m (p + def_type) } ∷ []
    else found)

unfoldable pub scan :
    (query : ℕ → Option Region) (fuel : ℕ) → Memory → List FoundDef → Option (List FoundDef)
unfolding walk_memory readable_region defs_from
scan query fuel m found =
    walk_memory query (λ r. readable_region r && leb def_bytes r.size)
      (λ r. defs_from m (rounds r.size def_bytes 4) r.base) fuel start_address found

-- 0 where there is none
unfoldable pub def_by_id : List FoundDef → ℕ → ℕ
def_by_id [] id = 0
def_by_id (f ∷ fs) id = if f.id == id then f.def else def_by_id fs id

-- The children that walk goes through.
unfoldable pub walk_children : Memory → ℕ → List ℕ
unfolding dwords
walk_children m def =
    let b = child_begin m def in
    let e = child_end m def in
    if plausible b && (ltb b e && ltb (e - b) 0x200) then dwords m b ((e - b) / 4) else []

-- What walk has printed, a definition a line, and `*first_text`.
pub record Walked : Type 0 where
  pub printed : List ℕ
  pub first_text : ℕ

abbrev pub type_text : ℕ
type_text = 6

module _ (found : List FoundDef) (m : Memory) where
  -- The lines for one definition.
  unfoldable pub print : ℕ → Walked → Walked
  print def w = record {
    printed = w.printed ++ def ∷ [];
    first_text =
        if dword m (def + def_type) == type_text && w.first_text == 0 then def else w.first_text;
  }

  -- for (k = 0; k < n; k++) walk(def_by_id(...), depth + 1, first_text)
  unfoldable pub walk_each : (ℕ → Walked → Walked) → List ℕ → Walked → Walked
  unfolding def_by_id
  walk_each down [] w = w
  walk_each down (id ∷ ids) w = walk_each down ids (down (def_by_id found id) w)

  -- walk, with the levels left: `depth > 5` ends it.
  unfoldable pub walk_tree : (levels def : ℕ) → Walked → Walked
  unfolding print walk_each walk_children
  walk_tree zero def w = w
  walk_tree (suc l) def w =
      if def == 0 then w else walk_each (walk_tree l) (walk_children m def) (print def w)
