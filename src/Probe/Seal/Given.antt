-- ===== src/Probe/Seal/Given.antt =====
-- The order of the calls into the game, and the bit that is held.
use crossover.Prelude.{
  ℕ, ◌+◌, ◌/◌, ◌%◌, ◌<◌, ◌≡◌, ◌≢◌, true, List, [], ◌∷◌, Option, if◌then◌else◌, arith,
}
use crossover.Probe.Memory.{Memory, set_byte}
use crossover.Probe.Regions.{Region}
use crossover.Probe.Seal.{
  Call, charstr_ctor, charstr_dtor, name_to_defid, give_object, set_hud, gsi_vtable, vt_give_object,
  hero_menu_flag_off, hero_menu_flag_bit, readable, rd, after_give, give_seal, hold_flag,
}

-- Where the calls stand: no string, a string that lives, or one that is destroyed.
pub data Phase : Type 0 where
  before : Phase
  living : Phase
  gone : Phase
  wrong : Phase

-- A string is built once, used while it lives, and destroyed once; the HUD comes last.
abbrev pub follow : Phase → Call → Phase
follow before charstr_ctor = living
follow living (name_to_defid d) = living
follow living (give_object f g) = living
follow living charstr_dtor = gone
follow gone (set_hud f g) = gone
follow p c = wrong

abbrev pub follow_all : Phase → List Call → Phase
follow_all p [] = p
follow_all p (c ∷ cs) = follow_all (follow p c) cs

abbrev pub gives : List Call → ℕ
gives [] = 0
gives (give_object f g ∷ cs) = 1 + gives cs
gives (charstr_ctor ∷ cs) = gives cs
gives (charstr_dtor ∷ cs) = gives cs
gives (name_to_defid d ∷ cs) = gives cs
gives (set_hud f g ∷ cs) = gives cs

-- The string's end: it was never built, or it is destroyed.
abbrev pub Clean : Phase → Type 0
Clean before = Unit
Clean living = ⊥
Clean gone = Unit
Clean wrong = ⊥

module _ (query : ℕ → Option Region) (m : Memory) (later : Memory) (defid_of : ℕ → ℕ)
    (gsi : ℕ) where
  -- Every CharString that is built is torn down, and the object is given at most once.
  pub give_seal-Clean :
      let (calls, ok) = give_seal query m later defid_of gsi in
      Clean (follow_all before calls)
      × (gives calls ≡ (if ok then 1 else 0))
      × (ok ≡ true
          → (rd query m gsi ≡ gsi_vtable)
            × (readable query m (rd query m (rd query m gsi + vt_give_object)) ≡ true))
  unfolding give_seal after_give
  give_seal-Clean = (ground arith, ground arith, ground arith)

-- The bit is set, and the other seven stay.
pub hold_flag-set :
    (query : ℕ → Option Region) (m : Memory) (who : ℕ)
    → who ≢ 0
    → readable query m (who + hero_menu_flag_off) ≡ true
    → m (who + hero_menu_flag_off) < 256
    → let v = hold_flag query m who (who + hero_menu_flag_off) in
      let old = m (who + hero_menu_flag_off) in
      (v / hero_menu_flag_bit % 2 ≡ 1)
      × (v % hero_menu_flag_bit ≡ old % hero_menu_flag_bit)
      × (v / 128 ≡ old / 128)
      × (v < 256)
unfolding hold_flag set_byte
hold_flag-set query m who some_hero r h = ground arith
