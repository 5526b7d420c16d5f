-- ===== src/Relay/Anchor.antt =====
-- AnchorPlayer and SpawnPositionFor of Server/src/RelayServer.cpp.
use crossover.Prelude.{
  ℕ, ◌≤◌, ◌≡◌, ◌⊎◌, inl, inr, refl, Bool, true, false, not, ◌||◌, ◌&&◌, List, [], ◌∷◌, All, Option,
  none, some, leb, ltb, arith, Bool-cases,
}
use crossover.Relay.State.{Player}
use crossover.Relay.Lookup.{better, anchor_from, anchor_player}

abbrev pub Within : Player → List Player → Type 0
Within a [] = ⊥
Within a (p ∷ ps) = (p ≡ a) ⊎ Within a ps

-- A player in the world has an id of at least `i`.
abbrev pub not_below : ℕ → Player → Bool
not_below i p = not p.spawned || leb i p.network_id

Best : Option Player → List Player → Player → Type 0
Best best ps a =
    (a.spawned ≡ true)
    × ((best ≡ some a) ⊎ Within a ps)
    × All (λ p. not_below a.network_id p ≡ true) ps

anchor_from-some :
    (b : Player) (ps : List Player)
    → b.spawned ≡ true
    → (a : Player) × (anchor_from (some b) ps ≡ some a)
      × (a.network_id ≤ b.network_id)
      × Best (some b) ps a
unfolding anchor_from better Best
anchor_from-some b [] h = (b, refl, omega arith, (h, inl refl, tt))
anchor_from-some b (p ∷ ps) h = elim (Bool-cases (p.spawned && ltb p.network_id b.network_id)) [
  | inl earlier ↦
      let (a, e, le, (sp, w, all)) = anchor_from-some p ps (ground arith) in
      (a, ground (arith, e), ground arith, (sp, ground arith, (ground arith, all)))
  | inr later ↦
      let (a, e, le, (sp, w, all)) = anchor_from-some b ps h in
      (a, ground (arith, e), le, (sp, ground arith, (ground arith, all)))
]

anchor_from-none :
    (ps : List Player)
    → ((anchor_from none ps ≡ none) × All (λ p. p.spawned ≡ false) ps)
      ⊎ ((a : Player) × (anchor_from none ps ≡ some a) × Best none ps a)
unfolding anchor_from better Best
anchor_from-none [] = inl (refl, tt)
anchor_from-none (p ∷ ps) = elim (Bool-cases p.spawned) [
  | inl here ↦
      let (a, e, le, (sp, w, all)) = anchor_from-some p ps here in
      inr (a, ground (arith, e), (sp, ground arith, (ground arith, all)))
  | inr away ↦ elim (anchor_from-none ps) [
    | inl (e, all) ↦ inl (ground (arith, e), (away, all))
    | inr (a, e, (sp, w, all)) ↦ inr (a, ground (arith, e), (sp, ground arith, (ground arith, all)))
  ]
]

-- There is an anchor exactly when somebody is in the world, and it is then a player in the world
-- with the lowest id of all that are.
pub anchor_player_lem :
    (ps : List Player)
    → ((anchor_player ps ≡ none) × All (λ p. p.spawned ≡ false) ps)
      ⊎ ((a : Player) × (anchor_player ps ≡ some a)
          × (a.spawned ≡ true)
          × Within a ps
          × All (λ p. not_below a.network_id p ≡ true) ps)
unfolding anchor_player Best
anchor_player_lem ps = elim (anchor_from-none ps) [
  | inl nobody ↦ inl nobody
  | inr (a, e, (sp, w, all)) ↦ inr (a, e, sp, ground arith, all)
]
