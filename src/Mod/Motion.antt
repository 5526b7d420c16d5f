-- ===== src/Mod/Motion.antt =====
-- Core/Multiplayer/Fable/NetPlayerManager/NetPlayerManagerMotion.cpp: how movements are broadcast,
-- received and applied.
use crossover.Prelude.{
  ℕ, Bool, true, false, List, [], ◌∷◌, Option, none, some, ◌==◌, ◌&&◌, if◌then◌else◌,
}
use crossover.Wire.Bytes.{Vec3, BitStream}
use crossover.Wire.Messages.{Message, player_movement, player_rotation}
use crossover.Relay.State.{unreliable_sequenced, payload}
use crossover.Mod.Network.{SystemAddress, Network, Sent, send_to_all_clients_except, send_to_host}
use crossover.Mod.Engine.{Engine}
use crossover.Mod.Players.{
  NetPlayer, LocalNetPlayer, Axis, movement, facing, Hook, Players, State, with_net_players,
  get_creature_from_network_id,
}

axis_eq : Axis → Axis → Bool
axis_eq movement movement = true
axis_eq movement facing = false
axis_eq facing movement = false
axis_eq facing facing = true

-- A callback's name is made of the axis and the id, and each creature has its own.
abbrev same_key : Hook → Hook → Bool
same_key h k = h.creature == k.creature && (axis_eq h.axis k.axis && h.network_id == k.network_id)

unfoldable pub add_hook : Hook → List Hook → List Hook
unfolding axis_eq
add_hook h [] = h ∷ []
add_hook h (k ∷ ks) = if same_key h k then h ∷ ks else k ∷ add_hook h ks

unfoldable pub remove_hook : Hook → List Hook → List Hook
unfolding axis_eq
remove_hook h [] = []
remove_hook h (k ∷ ks) = if same_key h k then remove_hook h ks else k ∷ remove_hook h ks

unfoldable pub find_net_player : ℕ → List NetPlayer → Option NetPlayer
find_net_player i [] = none
find_net_player i (p ∷ ps) = if p.network_id == i then some p else find_net_player i ps

-- Writes to the first player with the id.
unfoldable pub put_motion : ℕ → Vec3 → Vec3 → List NetPlayer → List NetPlayer
put_motion i at acceleration [] = []
put_motion i at acceleration (p ∷ ps) =
    if p.network_id == i
    then record p { movement_acceleration = acceleration; position = at } ∷ ps
    else p ∷ put_motion i at acceleration ps

unfoldable pub put_rotation : ℕ → Vec3 → Vec3 → List NetPlayer → List NetPlayer
put_rotation i up forward [] = []
put_rotation i up forward (p ∷ ps) =
    if p.network_id == i
    then record p { up = up; forward = forward } ∷ ps
    else p ∷ put_rotation i up forward ps

module _ {G : Type 0} (e : Engine G) where
  abbrev pub hooked : Axis → Bool → ℕ → State G → Option ℕ → State G
  hooked axis broadcasts i st none = st
  hooked axis broadcasts i st (some c) = record st {
    players = record (st.players) {
      hooks =
          add_hook (record { creature = c; axis = axis; network_id = i; broadcasts = broadcasts })
            st.players.hooks;
    };
  }

  -- The common form of ApplyNetPlayerMovement, ApplyNetPlayerRotation, BroadcastLocalNetPlayerMovement
  -- and BroadcastLocalNetPlayerRotation: a closure is registered with the creature, if there is one.
  unfoldable pub hook_creature : Axis → Bool → ℕ → State G → State G
  hook_creature axis broadcasts i st =
      hooked axis broadcasts i st (get_creature_from_network_id e st.game st.players i)

  abbrev moved : ℕ → G → Option NetPlayer → G
  moved creature g none = g
  moved creature g (some p) =
      let g' = e.set_movement_acceleration g creature p.movement_acceleration in
      if e.drifted p.position (e.get_pos g' creature)
      then e.set_position g' creature p.position
      else g'

  abbrev turned : ℕ → G → Option NetPlayer → G
  turned creature g none = g
  turned creature g (some p) = e.set_rh_set g creature p.up p.forward

  -- The closures that apply what was received.
  unfoldable pub resolve_movement : ℕ → ℕ → G → Players → G
  resolve_movement creature i g m = moved creature g (find_net_player i m.net_players)

  unfoldable pub resolve_facing : ℕ → ℕ → G → Players → G
  resolve_facing creature i g m = turned creature g (find_net_player i m.net_players)

module _ (s : BitStream) (resolve : List ℕ → ℕ → SystemAddress) where
  -- To all other clients by the host, and to the host by a client.
  abbrev share : Network → LocalNetPlayer → ℕ → Message → List Sent
  share n l i m =
      if l.network_id == 0
      then send_to_all_clients_except i (payload s m) unreliable_sequenced n.connections
      else send_to_host resolve n (payload s m) unreliable_sequenced

  abbrev shared : Network → ℕ → Message → Option LocalNetPlayer → Option (List Sent)
  shared n i m none = none
  shared n i m (some l) = some (share n l i m)

  -- The closures of the local player; `none` if there is no local player any more.
  unfoldable pub broadcast_movement : {G : Type 0} → Engine G → ℕ → ℕ → State G → Option (List Sent)
  broadcast_movement e creature i st =
      shared st.network i
        (player_movement i (e.get_pos st.game creature) (e.movement_acceleration st.game creature))
        st.players.local_net_player

  unfoldable pub broadcast_rotation : {G : Type 0} → Engine G → ℕ → ℕ → State G → Option (List Sent)
  broadcast_rotation e creature i st =
      shared st.network i
        (player_rotation i (e.get_up st.game creature) (e.get_forward st.game creature))
        st.players.local_net_player

  -- What the host passes on, and a client does not.
  unfoldable pub pass_on : Network → Option LocalNetPlayer → ℕ → Message → List Sent
  pass_on n none i m = []
  pass_on n (some l) i m =
      if l.network_id == 0
      then send_to_all_clients_except i (payload s m) unreliable_sequenced n.connections
      else []

  unfoldable pub receive_net_player_movement :
      {G : Type 0} → ℕ → Vec3 → Vec3 → State G → State G × List Sent
  receive_net_player_movement i at acceleration st = (
    record st {
      players = with_net_players st.players (put_motion i at acceleration st.players.net_players);
    },
    pass_on st.network st.players.local_net_player i (player_movement i at acceleration),
  )

  unfoldable pub receive_net_player_rotation :
      {G : Type 0} → ℕ → Vec3 → Vec3 → State G → State G × List Sent
  receive_net_player_rotation i up forward st = (
    record st {
      players = with_net_players st.players (put_rotation i up forward st.players.net_players);
    },
    pass_on st.network st.players.local_net_player i (player_rotation i up forward),
  )
