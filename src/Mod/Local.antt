-- ===== src/Mod/Local.antt =====
-- The local player in Core/Multiplayer/Fable/NetPlayerManager: CreateLocalNetPlayer, its spawn at the
-- host's side, DestroyLocalNetPlayer, and ConnectionNotification.
use crossover.Prelude.{ℕ, true, List, [], Option, none, some, ◌==◌, if◌then◌else◌}
use crossover.Wire.Bytes.{Vec3, BitStream}
use crossover.Wire.Messages.{Message}
use crossover.Relay.State.{reliable_ordered, payload}
use crossover.Mod.Network.{SystemAddress, Sent, send_to, send_to_host}
use crossover.Mod.Engine.{Engine}
use crossover.Mod.Players.{
  LocalNetPlayer, movement, facing, Pending, Players, State, Outcome, get_free_local_id,
  get_creature_from_local_id, get_creature_from_network_id,
}
use crossover.Mod.Motion.{hook_creature}
use crossover.Mod.Lifecycle.{unhook, put_players}

module _ {G : Type 0} (e : Engine G) where
  -- Behind the guard of TeleportLocalNetPlayerToHost.
  abbrev pub teleported : ℕ → Vec3 → State G → Option ℕ → State G
  teleported i at st none = st
  teleported i at st (some c) = record st {
    game = e.set_as_loading_region st.game at c;
    players = record (st.players) {
      pending = some (record {
        network_id = i;
        def_global_index = e.def_global_index st.game c;
        position = at;
      });
    };
  }

  unfoldable pub teleport_local_net_player_to_host : ℕ → Vec3 → State G → State G
  teleport_local_net_player_to_host i at st =
      teleported i at st (get_creature_from_network_id e st.game st.players i)

  -- For the free local id and its creature.
  unfoldable pub become : ℕ → Vec3 → ℕ → State G → State G
  become i at l st =
      let m : Players = record (st.players) {
        local_net_player = some (record { network_id = i; local_id = l });
      } in
      let st' : State G =
        hook_creature e facing true i (hook_creature e movement true i (put_players st m)) in
      if i == 0 then st' else teleport_local_net_player_to_host i at st'

  abbrev pub become_with : ℕ → Vec3 → ℕ → State G → Option ℕ → State G
  become_with i at l st none = st
  become_with i at l st (some c) = become i at l st

  abbrev pub create_local_at : ℕ → Vec3 → State G → Option ℕ → State G
  create_local_at i at st none = st
  create_local_at i at st (some l) = become_with i at l st (get_creature_from_local_id e st.game l)

  unfoldable pub create_local_net_player : ℕ → Vec3 → State G → State G
  create_local_net_player i at st = create_local_at i at st (get_free_local_id st.players)

  abbrev pub leave_creature : LocalNetPlayer → State G → Option ℕ → State G
  leave_creature l st none = st
  leave_creature l st (some c) = record st {
    players = record (st.players) {
      local_net_player = none;
      hooks = unhook c l.network_id st.players.hooks;
    };
  }

  abbrev pub leave : State G → Option LocalNetPlayer → State G
  leave st none = st
  leave st (some l) =
      leave_creature l st (get_creature_from_network_id e st.game st.players l.network_id)

  unfoldable pub destroy_local_net_player : State G → State G
  destroy_local_net_player st = leave st st.players.local_net_player

  module _ (s : BitStream) (resolve : List ℕ → ℕ → SystemAddress) where
    abbrev pub arrive : State G → Option Pending → State G × List Sent
    arrive st none = (st, [])
    arrive st (some p) = if e.is_loading_region st.game then (st, []) else (
      put_players st (record (st.players) { pending = none }),
      send_to_host resolve st.network
          (payload s (
            Message.create_net_player (record {
              network_id = p.network_id;
              def_global_index = p.def_global_index;
              position = p.position;
            })))
          reliable_ordered,
    )

    -- The closure that BroadcastCreateLocalNetPlayer registers, as the game updates its region.
    unfoldable pub update_region_load : State G → State G × List Sent
    update_region_load st = arrive st st.players.pending

    abbrev pub welcome_at : ℕ → SystemAddress → State G → Option ℕ → List Sent
    welcome_at i a st none = []
    welcome_at i a st (some c) =
        send_to (payload s (Message.create_local_net_player i (e.get_pos st.game c)))
          reliable_ordered a

    abbrev pub welcome : ℕ → SystemAddress → State G → Option LocalNetPlayer → Outcome G
    welcome i a st none = none
    welcome i a st (some l) =
        some (st, welcome_at i a st (get_creature_from_local_id e st.game l.local_id))

    unfoldable pub connection_notification : ℕ → SystemAddress → State G → Outcome G
    connection_notification i a st = welcome i a st st.players.local_net_player
