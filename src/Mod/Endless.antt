-- ===== src/Mod/Endless.antt =====
-- When leaving a session never returns: DestroyNetPlayers and Disconnect of Core/Multiplayer.
use crossover.Prelude.{
  ℕ, zero, suc, true, false, List, [], ◌∷◌, length, Option, none, some, ◌≡◌, ◌⊎◌, inl, inr, ◌↔◌,
  refl, sym, ap, subst, ◌∙◌, arith,
}
use crossover.Wire.Bytes.{BitStream}
use crossover.Mod.Network.{SystemAddress, Sent}
use crossover.Mod.Engine.{Engine}
use crossover.Mod.Players.{
  NetPlayer, LocalNetPlayer, State, Outcome, get_local_id_from_network_id,
  get_creature_from_network_id,
}
use crossover.Mod.Lifecycle.{
  erase_net_player, disembody, destroy_with, destroy_net_player, destroy_each, destroy_net_players,
  announce_destroyed, after_destroy, carry_on,
}
use crossover.Mod.Session.{
  goes_on, hangs, then_run, of_loop, forget_session, disconnect, with_network,
}
use crossover.Mod.Teardown.{if_true, erase-first}

module _ {G : Type 0} (e : Engine G) (s : BitStream) where
  destroy-absent :
      (i : ℕ) (st : State G)
      → get_creature_from_network_id e st.game st.players i ≡ none
      → destroy_net_player e s i st ≡ some (st, [])
  unfolding destroy_net_player destroy_with
  destroy-absent i st h = rw h

  -- If the first player has no creature, destroying it does nothing, in every round.
  hangs_at :
      (fuel : ℕ) (st : State G) (p : NetPlayer) (ps : List NetPlayer)
      → st.players.net_players ≡ p ∷ ps
      → get_creature_from_network_id e st.game st.players p.network_id ≡ none
      → destroy_each e s fuel st (p ∷ ps) ≡ none
  unfolding destroy_each
  hangs_at zero st p ps h absent = refl
  hangs_at (suc fuel) st p ps h absent =
      rw (destroy-absent p.network_id st absent, h, hangs_at fuel st p ps h absent)

  -- What a round can come to: a null pointer is followed, or the first player is taken out.
  abbrev TakesOut : List NetPlayer → Outcome G → Type 0
  TakesOut ps none = Unit
  TakesOut ps (some (st, _)) = st.players.net_players ≡ ps

  announce-TakesOut :
      (i : ℕ) (st : State G) (ps : List NetPlayer) (o : Option LocalNetPlayer)
      → st.players.net_players ≡ ps
      → TakesOut ps (announce_destroyed e s i st o)
  announce-TakesOut i st ps none h = tt
  announce-TakesOut i st ps (some l) h = h

  destroy_with-TakesOut :
      (st : State G) (p : NetPlayer) (ps : List NetPlayer) (seat c : ℕ)
      → st.players.net_players ≡ p ∷ ps
      → TakesOut ps (destroy_with e s p.network_id st seat (some c))
  unfolding destroy_with disembody
  destroy_with-TakesOut st p ps seat c h =
      announce-TakesOut p.network_id (disembody e s p.network_id seat c st) ps
        st.players.local_net_player (ap (erase_net_player p.network_id) h ∙ erase-first p ps)

  destroy-TakesOut :
      (st : State G) (p : NetPlayer) (ps : List NetPlayer) (o : Option ℕ)
      → get_creature_from_network_id e st.game st.players p.network_id ≡ o
      → st.players.net_players ≡ p ∷ ps
      → (get_creature_from_network_id e st.game st.players p.network_id ≡ none)
        ⊎ TakesOut ps (destroy_net_player e s p.network_id st)
  unfolding destroy_net_player
  destroy-TakesOut st p ps none e' h = inl e'
  destroy-TakesOut st p ps (some c) e' h = inr (
      rw e'
        (destroy_with-TakesOut st p ps (get_local_id_from_network_id st.players p.network_id) c h))

  -- A round behind one that took a player out.
  carry_on-none :
      (sent : List Sent) (o : Option (Outcome G)) → carry_on e s sent o ≡ none → o ≡ none
  carry_on-none sent none h = refl
  carry_on-none sent (some r) h = absurd (ground arith)

  after_round :
      (ps : List NetPlayer) (fuel : ℕ) (r : Outcome G)
      → TakesOut ps r
      → ((st : State G)
          → st.players.net_players ≡ ps
          → destroy_each e s (length ps) st ps ≡ none
          → destroy_each e s fuel st ps ≡ none)
      → after_destroy e s r (λ st. destroy_each e s (length ps) st st.players.net_players) ≡ none
      → after_destroy e s r (λ st. destroy_each e s fuel st st.players.net_players) ≡ none
  after_round ps fuel none t again out = absurd (ground arith)
  after_round ps fuel (some (st, sent)) t again out =
      let same : (n : ℕ) → destroy_each e s n st st.players.net_players ≡ destroy_each e s n st ps =
        λ n. ap (destroy_each e s n st) t in
      ap (carry_on e s sent)
        (same fuel ∙ again st t (sym (same (length ps)) ∙ carry_on-none sent _ out))

  -- If a round for each player is not enough, no number of rounds is.
  destroy_each-forever :
      (ps : List NetPlayer) (st : State G) (fuel : ℕ)
      → st.players.net_players ≡ ps
      → destroy_each e s (length ps) st ps ≡ none
      → destroy_each e s fuel st ps ≡ none
  unfolding destroy_each
  destroy_each-forever [] st fuel h out = absurd (ground arith)
  destroy_each-forever (p ∷ ps) st zero h out = refl
  destroy_each-forever (p ∷ ps) st (suc fuel) h out = elim (destroy-TakesOut st p ps _ refl h) [
    | inl absent ↦ hangs_at (suc fuel) st p ps h absent
    | inr takes ↦
        after_round ps fuel (destroy_net_player e s p.network_id st) takes
          (λ st'. destroy_each-forever ps st' fuel) out
  ]

-- The state in which Disconnect comes to its loop: the peer is shut down.
abbrev pub shut_down : {G : Type 0} → State G → State G
shut_down st = with_network st (record (st.network) { active = false })

module _ {G : Type 0} (e : Engine G) (s : BitStream) (resolve : List ℕ → ℕ → SystemAddress)
    (bound : SystemAddress) where
  -- What follows the loop does not hang.
  hangs-loop :
      (o : Option (Outcome G))
      → then_run (of_loop o) (λ st. goes_on (forget_session e s resolve bound st) []) ≡ hangs
      → o ≡ none
  hangs-loop none h = refl
  hangs-loop (some none) h = absurd (ground arith)
  hangs-loop (some (some (st, sent))) h = absurd (ground arith)

  -- Disconnect once it has found the session active.
  disconnect_active :
      (st : State G)
      → st.network.active ≡ true
      → disconnect e s resolve bound st
        ≡ then_run
            (of_loop (destroy_net_players e s (length st.players.net_players) (shut_down st)))
            (λ st'. goes_on (forget_session e s resolve bound st') [])
  unfolding disconnect
  disconnect_active st on = if_true st.network.active _ on

  pub disconnect-hangs_iff :
      (st : State G)
      → st.network.active ≡ true
      → (disconnect e s resolve bound st ≡ hangs)
        ↔ ((fuel : ℕ) → destroy_net_players e s fuel (shut_down st) ≡ none)
  unfolding destroy_net_players
  disconnect-hangs_iff st on = (
    λ h fuel.
        destroy_each-forever e s st.players.net_players (shut_down st) fuel refl
          (hangs-loop _ (sym (disconnect_active st on) ∙ h)),
    λ never.
        disconnect_active st on
        ∙ ap (λ o. then_run (of_loop o) λ st'. goes_on (forget_session e s resolve bound st') [])
            (never (length st.players.net_players)),
  )

  -- Disconnect of the mod, in a session whose first player has no creature, never returns: the
  -- model says so, and no number of rounds of DestroyNetPlayers is enough.
  pub disconnect-hangs :
      (st : State G) (p : NetPlayer) (ps : List NetPlayer)
      → st.network.active ≡ true
      → st.players.net_players ≡ p ∷ ps
      → get_creature_from_network_id e st.game st.players p.network_id ≡ none
      → (disconnect e s resolve bound st ≡ hangs)
        × ((fuel : ℕ) → destroy_net_players e s fuel (shut_down st) ≡ none)
  unfolding destroy_net_players
  disconnect-hangs st p ps on h absent =
      let never : (fuel : ℕ) → destroy_net_players e s fuel (shut_down st) ≡ none = λ fuel.
        subst (λ qs. destroy_each e s fuel (shut_down st) qs ≡ none) (sym h)
          (hangs_at e s fuel (shut_down st) p ps h absent) in
      ((disconnect-hangs_iff st on).1 never, never)
