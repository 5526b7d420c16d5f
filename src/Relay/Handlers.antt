-- ===== src/Relay/Handlers.antt =====
-- The packet handlers of Server/src/RelayServer.cpp. Each returns the new state and what it sends.
-- Log lines are left out: nothing depends on them.
use crossover.Prelude.{
  ℕ, suc, true, false, not, List, [], ◌∷◌, ◌++◌, length, Option, none, some, ltb, leb, ◌==◌,
  if◌then◌else◌,
}
use crossover.Wire.Bytes.{zero_vec, BitStream}
use crossover.Wire.Messages.{
  Entry, Motion, create_local_net_player, create_net_player, destroy_net_player, player_movement,
  player_rotation, read_entry, read_motion, size_create_net_player, size_player_movement,
  size_player_rotation,
}
use crossover.Relay.State.{
  Player, Server, Packet, reliable_ordered, unreliable_sequenced, Effect, send, close_connection,
  payload,
}
use crossover.Relay.Lookup.{
  find_by_address, replace_by_address, allocate_network_id, spawn_position_for,
}
use crossover.Relay.Sending.{relay_except, entry_of, send_roster}

-- packet->length
abbrev pub packet_length : Packet → ℕ
packet_length k = suc (length k.body)

abbrev pub new_player : Packet → ℕ → ℕ → Player
new_player k i now = record {
  address = k.system_address;
  guid = k.guid;
  network_id = i;
  spawned = false;
  def_global_index = 0;
  position = zero_vec;
  up = zero_vec;
  forward = zero_vec;
  connected_at_ms = now;
  last_packet_ms = now;
  packets_in = 0;
  rate_window_start_ms = now;
  rate_window_count = 0;
  rate_limited = false;
}

-- The loop of `std::remove_if`.
unfoldable pub remove_by_network_id : ℕ → List Player → List Player
remove_by_network_id i [] = []
remove_by_network_id i (p ∷ ps) =
    if p.network_id == i then remove_by_network_id i ps else p ∷ remove_by_network_id i ps

abbrev pub with_players : Server → List Player → Server
with_players srv ps = record srv { players = ps }

-- The sender, once it has told the server its definition and position.
abbrev pub spawn_player : Player → Entry → Player
spawn_player self e = record self {
  spawned = true;
  def_global_index = e.def_global_index;
  position = e.position;
}

module _ (s : BitStream) where
  -- Once an id is allocated: the player is added, and told its id and where to spawn.
  unfoldable pub admit : Server → Packet → ℕ → Option ℕ → Server × List Effect
  admit srv k now none = (srv, [])
  admit srv k now (some i) =
      let srv' : Server = with_players srv (srv.players ++ new_player k i now ∷ []) in
      (
        srv',
        send k.system_address (payload s (create_local_net_player i (spawn_position_for srv')))
              reliable_ordered
            ∷ [],
      )

  unfoldable pub handle_connection_notification : Server → Packet → ℕ → Server × List Effect
  handle_connection_notification srv k now = elim (find_by_address k.system_address srv.players) [
    | some _ ↦ (srv, [])
    | none ↦
        if leb srv.config.max_players (length srv.players)
        then (srv, close_connection k.system_address ∷ [])
        else admit srv k now (allocate_network_id srv.players)
  ]

  unfoldable pub announce : Server → Player → Server × List Effect
  announce srv self =
      let ps : List Player = replace_by_address self.address self srv.players in
      (
        with_players srv ps,
        relay_except self.network_id (payload s (create_net_player (entry_of self)))
              reliable_ordered ps
            ++ send_roster s self ps,
      )

  unfoldable pub handle_create_net_player : Server → Packet → Server × List Effect
  handle_create_net_player srv k =
      if ltb (packet_length k) size_create_net_player
      then (srv, [])
      else elim (find_by_address k.system_address srv.players) [
        | none ↦ (srv, [])
        | some self ↦ announce srv (spawn_player self (read_entry s 0 k.body).0)
      ]

  -- Behind the guards of HandlePlayerMovement, and of HandlePlayerRotation.
  unfoldable pub relay_movement : Server → Player → Motion → Server × List Effect
  relay_movement srv self m =
      let ps : List Player =
        replace_by_address self.address (record self { position = m.first }) srv.players in
      (
        with_players srv ps,
        relay_except self.network_id (payload s (player_movement self.network_id m.first m.second))
            unreliable_sequenced ps,
      )

  unfoldable pub relay_rotation : Server → Player → Motion → Server × List Effect
  relay_rotation srv self m =
      let ps : List Player =
        replace_by_address self.address (record self { up = m.first; forward = m.second })
          srv.players in
      (
        with_players srv ps,
        relay_except self.network_id (payload s (player_rotation self.network_id m.first m.second))
            unreliable_sequenced ps,
      )

  unfoldable pub handle_player_movement : Server → Packet → Server × List Effect
  handle_player_movement srv k =
      if ltb (packet_length k) size_player_movement
      then (srv, [])
      else elim (find_by_address k.system_address srv.players) [
        | none ↦ (srv, [])
        | some self ↦
            if not self.spawned then (srv, []) else relay_movement srv self (read_motion s k.body)
      ]

  unfoldable pub handle_player_rotation : Server → Packet → Server × List Effect
  handle_player_rotation srv k =
      if ltb (packet_length k) size_player_rotation
      then (srv, [])
      else elim (find_by_address k.system_address srv.players) [
        | none ↦ (srv, [])
        | some self ↦
            if not self.spawned then (srv, []) else relay_rotation srv self (read_motion s k.body)
      ]

  -- HandleDrop for the player that the packet came from.
  unfoldable pub remove_player : Server → Player → Server × List Effect
  remove_player srv self =
      let ps : List Player = remove_by_network_id self.network_id srv.players in
      (
        with_players srv ps,
        if self.spawned
            then relay_except self.network_id (payload s (destroy_net_player self.network_id))
                reliable_ordered ps
            else [],
      )

  unfoldable pub handle_drop : Server → Packet → Server × List Effect
  handle_drop srv k = elim (find_by_address k.system_address srv.players) [
    | none ↦ (srv, [])
    | some self ↦ remove_player srv self
  ]
