-- ===== src/Mod/LocalInvariant.antt =====
-- The same when the local player of the mod (Core/Multiplayer) comes or goes.
use crossover.Prelude.{ℕ, true, false, Option, none, some, ◌==◌, ◌≡◌, if_cases, contains}
use crossover.Wire.Bytes.{Vec3}
use crossover.Mod.Engine.{Engine}
use crossover.Mod.Players.{
  LocalNetPlayer, movement, facing, State, local_ids, get_creature_from_local_id,
  get_creature_from_network_id,
}
use crossover.Mod.Motion.{hook_creature}
use crossover.Mod.Local.{
  teleported, teleport_local_net_player_to_host, become, become_with, create_local_net_player,
  leave, leave_creature, destroy_local_net_player,
}
use crossover.Mod.Tables.{get_free_local_id_lem, Seated-leave, Seated-move}
use crossover.Mod.Invariant.{Tidy, hook_creature-Tidy}

module _ {G : Type 0} (e : Engine G) where
  teleported-Tidy :
      (i : ℕ) (at : Vec3) (st : State G) (c : Option ℕ) → Tidy st → Tidy (teleported e i at st c)
  teleported-Tidy i at st none v = v
  teleported-Tidy i at st (some c) v = v

  become-Tidy :
      (i : ℕ) (at : Vec3) (l : ℕ) (st : State G)
      → Tidy st
      → contains (local_ids st.players) l ≡ false
      → Tidy (become e i at l st)
  unfolding become teleport_local_net_player_to_host
  become-Tidy i at l st v new =
      if_cases {A = State G} Tidy (i == 0) (λ _. hooked)
        (λ _. teleported-Tidy i at _ (get_creature_from_network_id e _ _ i) hooked)
    where
      hooked : Tidy (
          hook_creature e facing true i (
            hook_creature e movement true i (record st {
              players = record (st.players) {
                local_net_player = some (record { network_id = i; local_id = l });
              };
            })))
      hooked = hook_creature-Tidy e facing true i _ (
          hook_creature-Tidy e movement true i _ (
            v.0,
            Seated-move st.players.local_net_player (record { network_id = i; local_id = l })
                st.players.net_players v.1 new,
          ))

  become_with-Tidy :
      (i : ℕ) (at : Vec3) (l : ℕ) (st : State G) (c : Option ℕ)
      → Tidy st
      → contains (local_ids st.players) l ≡ false
      → Tidy (become_with e i at l st c)
  become_with-Tidy i at l st none v new = v
  become_with-Tidy i at l st (some c) v new = become-Tidy i at l st v new

  pub create_local_net_player-Tidy :
      (i : ℕ) (at : Vec3) (st : State G) → Tidy st → Tidy (create_local_net_player e i at st)
  unfolding create_local_net_player
  create_local_net_player-Tidy i at st v =
      let (l, eq, low) = get_free_local_id_lem st.players in
      rw eq (become_with-Tidy i at l st (get_creature_from_local_id e st.game l) v low.free)

  leave_creature-Tidy :
      (l : LocalNetPlayer) (st : State G) (c : Option ℕ) → Tidy st → Tidy (leave_creature e l st c)
  leave_creature-Tidy l st none v = v
  leave_creature-Tidy l st (some c) v =
      (v.0, Seated-leave st.players.local_net_player st.players.net_players v.1)

  leave-Tidy : (st : State G) (o : Option LocalNetPlayer) → Tidy st → Tidy (leave e st o)
  leave-Tidy st none v = v
  leave-Tidy st (some l) v =
      leave_creature-Tidy l st (get_creature_from_network_id e st.game st.players l.network_id) v

  pub destroy_local_net_player-Tidy :
      (st : State G) → Tidy st → Tidy (destroy_local_net_player e st)
  unfolding destroy_local_net_player
  destroy_local_net_player-Tidy st v = leave-Tidy st st.players.local_net_player v
