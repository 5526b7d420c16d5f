-- ===== src/Mod/Lifecycle.antt =====
-- Core/Multiplayer/Fable/NetPlayerManager/NetPlayerManagerLifecycle.cpp and
-- NetPlayerManagerSession.cpp: players come and go.
use crossover.Prelude.{
  ℕ, zero, suc, Bool, false, not, List, [], ◌∷◌, ◌++◌, length, Option, none, some, ◌==◌, ◌&&◌,
  if◌then◌else◌,
}
use crossover.Wire.Bytes.{zero_vec, BitStream, write_int}
use crossover.Wire.Messages.{Entry, Message, create_net_players_id, write_entries}
use crossover.Relay.State.{reliable_ordered, payload}
use crossover.Mod.Network.{Sent, no_id, send_to_client, send_to_all_clients_except}
use crossover.Mod.Engine.{Engine}
use crossover.Mod.Players.{
  NetPlayer, LocalNetPlayer, movement, facing, Hook, Players, State, Outcome, with_net_players,
  get_free_local_id, get_local_id_from_network_id, get_creature_from_network_id,
}
use crossover.Mod.Motion.{hook_creature, remove_hook}

abbrev pub new_net_player : ℕ → ℕ → NetPlayer
new_net_player i l = record {
  network_id = i;
  local_id = l;
  movement_acceleration = zero_vec;
  position = zero_vec;
  up = zero_vec;
  forward = zero_vec;
}

-- The loop in DestroyNetPlayer: the first player with the id is erased.
unfoldable pub erase_net_player : ℕ → List NetPlayer → List NetPlayer
erase_net_player i [] = []
erase_net_player i (p ∷ ps) = if p.network_id == i then ps else p ∷ erase_net_player i ps

-- The two callbacks that are removed from a creature by their names.
abbrev pub unhook : ℕ → ℕ → List Hook → List Hook
unhook creature i hs =
    remove_hook (record { creature = creature; axis = facing; network_id = i; broadcasts = false })
      (remove_hook
        (record { creature = creature; axis = movement; network_id = i; broadcasts = false }) hs)

abbrev pub put_players : {G : Type 0} → State G → Players → State G
put_players st m = record st { players = m }

module _ {G : Type 0} (e : Engine G) (s : BitStream) where
  -- One entry of the roster, if the player has a creature.
  abbrev roster_entry : G → ℕ → Option ℕ → List Entry
  roster_entry g i none = []
  roster_entry g i (some c) =
      record { network_id = i; def_global_index = e.def_global_index g c; position = e.get_pos g c }
      ∷ []

  unfoldable pub roster_entries : G → Players → List NetPlayer → List Entry
  roster_entries g m [] = []
  roster_entries g m (p ∷ ps) =
      roster_entry g p.network_id (get_creature_from_network_id e g m p.network_id)
      ++ roster_entries g m ps

  -- The count is written before the entries are.
  unfoldable pub roster_bytes : ℕ → List Entry → List ℕ
  roster_bytes count es = create_net_players_id ∷ (write_int s count ++ write_entries s es)

  abbrev own_entry : ℕ → State G → LocalNetPlayer → Option ℕ → List Sent
  own_entry i st l none = []
  own_entry i st l (some c) =
      send_to_client i
        (roster_bytes (suc (length st.players.net_players)) (
          roster_entry st.game l.network_id (some c)
          ++ roster_entries st.game st.players st.players.net_players))
        reliable_ordered st.network.connections

  abbrev roster_for : ℕ → State G → Option LocalNetPlayer → List Sent
  roster_for i st none =
      send_to_client i
        (roster_bytes (length st.players.net_players)
          (roster_entries st.game st.players st.players.net_players))
        reliable_ordered st.network.connections
  roster_for i st (some l) =
      own_entry i st l (get_creature_from_network_id e st.game st.players l.network_id)

  unfoldable pub broadcast_create_net_players : ℕ → State G → List Sent
  broadcast_create_net_players i st = roster_for i st st.players.local_net_player

  unfoldable pub broadcast_create_net_player : Entry → State G → List Sent
  broadcast_create_net_player en st =
      send_to_all_clients_except en.network_id (payload s (Message.create_net_player en))
        reliable_ordered st.network.connections

  unfoldable pub broadcast_destroy_net_player : ℕ → State G → List Sent
  broadcast_destroy_net_player i st =
      send_to_all_clients_except i (payload s (Message.destroy_net_player i)) reliable_ordered
        st.network.connections

  -- The end of CreateNetPlayer: `none` if there is no local player to ask.
  abbrev pub announce_created : Entry → State G → Option LocalNetPlayer → Outcome G
  announce_created en st none = none
  announce_created en st (some l) = some (
    st,
    if l.network_id == 0
        then broadcast_create_net_player en st ++ broadcast_create_net_players en.network_id st
        else [],
  )

  -- Once the game has the player: its creature is made, and takes what is received.
  unfoldable pub embody : Entry → ℕ → State G → State G
  embody en l st =
      let m : Players =
        with_net_players st.players
          (st.players.net_players ++ new_net_player en.network_id l ∷ []) in
      let (g, c) = e.create_creature st.game en.def_global_index en.position l in
      let st' : State G = record st { game = e.set_controlled_creature g l c; players = m } in
      hook_creature e facing false en.network_id (hook_creature e movement false en.network_id st')

  unfoldable pub create_with : Entry → State G → Option ℕ → Outcome G
  create_with en st none = some (st, [])
  create_with en st (some l) =
      let g = e.create_player st.game l in
      if e.get_player g l
      then announce_created en (embody en l (record st { game = g })) st.players.local_net_player
      else some (record st { game = g }, [])

  unfoldable pub create_net_player : Entry → State G → Outcome G
  create_net_player en st = create_with en st (get_free_local_id st.players)

  -- The guard of CreateNetPlayers.
  abbrev pub is_new : Entry → State G → LocalNetPlayer → Bool
  is_new en st l =
      not (en.network_id == l.network_id)
      && get_local_id_from_network_id st.players en.network_id == no_id

  abbrev pub create_if_new : Entry → State G → Option LocalNetPlayer → Outcome G
  create_if_new en st none = none
  create_if_new en st (some l) = if is_new en st l then create_net_player en st else some (st, [])

  unfoldable pub create_net_players : Entry → State G → Outcome G
  create_net_players en st = create_if_new en st st.players.local_net_player

  abbrev pub announce_destroyed : ℕ → State G → Option LocalNetPlayer → Outcome G
  announce_destroyed i st none = none
  announce_destroyed i st (some l) =
      some (st, if l.network_id == 0 then broadcast_destroy_net_player i st else [])

  -- Behind the guards of DestroyNetPlayer, for the player's local id and creature.
  unfoldable pub disembody : ℕ → ℕ → ℕ → State G → State G
  disembody i l c st = record st {
    game = e.uninitialise st.game l;
    players = record (st.players) {
      hooks = unhook c i st.players.hooks;
      net_players = erase_net_player i st.players.net_players;
    };
  }

  unfoldable pub destroy_with : ℕ → State G → ℕ → Option ℕ → Outcome G
  destroy_with i st l none = some (st, [])
  destroy_with i st l (some c) =
      announce_destroyed i (disembody i l c st) st.players.local_net_player

  unfoldable pub destroy_net_player : ℕ → State G → Outcome G
  destroy_net_player i st =
      destroy_with i st (get_local_id_from_network_id st.players i)
        (get_creature_from_network_id e st.game st.players i)

  -- What went on before is sent before.
  abbrev pub prepend : List Sent → Outcome G → Outcome G
  prepend sent none = none
  prepend sent (some (st, more)) = some (st, sent ++ more)

  abbrev pub carry_on : List Sent → Option (Outcome G) → Option (Outcome G)
  carry_on sent none = none
  carry_on sent (some r) = some (prepend sent r)

  abbrev pub after_destroy : Outcome G → (State G → Option (Outcome G)) → Option (Outcome G)
  after_destroy none rest = some none
  after_destroy (some (st, sent)) rest = carry_on sent (rest st)

  -- `while (!netPlayers.empty())`, with fuel: the outer `none` says that the fuel ran out.
  unfoldable pub destroy_each : ℕ → State G → List NetPlayer → Option (Outcome G)
  destroy_each fuel st [] = some (some (st, []))
  destroy_each zero st (_ ∷ _) = none
  destroy_each (suc fuel) st (p ∷ _) =
      after_destroy (destroy_net_player p.network_id st)
        λ st'. destroy_each fuel st' st'.players.net_players

  unfoldable pub destroy_net_players : ℕ → State G → Option (Outcome G)
  destroy_net_players fuel st = destroy_each fuel st st.players.net_players
