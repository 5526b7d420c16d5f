-- ===== src/Relay/Session.antt =====
-- Server/src/RelayServer.cpp: AcceptRate, Start, Tick, Stop, Snapshot and the persisted anchor.
use crossover.Prelude.{
  ℕ, suc, ◌+◌, ◌-◌, ◌%◌, ◌^◌, Bool, true, false, not, List, [], ◌∷◌, ◌++◌, map, length, Option,
  none, some, ltb, leb, ◌==◌, if◌then◌else◌,
}
use crossover.Config.{Config}
use crossover.Wire.Bytes.{Vec3, zero_vec, BitStream}
use crossover.Wire.Messages.{
  connection_notification_id, create_net_player_id, player_movement_id, player_rotation_id,
  destroy_net_player,
}
use crossover.Relay.State.{
  Player, Server, Packet, Arrival, reliable_ordered, Effect, write_state_file, payload,
}
use crossover.Relay.Lookup.{find_by_address, replace_by_address, anchor_player}
use crossover.Relay.Sending.{relay_except}
use crossover.Relay.Handlers.{
  handle_connection_notification, handle_create_net_player, handle_player_movement,
  handle_player_rotation, handle_drop, with_players,
}

abbrev pub max_packets_per_second : ℕ
max_packets_per_second = 600

abbrev pub persist_interval_ms : ℕ
persist_interval_ms = 10000

-- A window of one second that is over starts anew. A clock that stands before the window's start
-- gives 0 here and a negative number in the source: neither reaches 1000.
unfoldable pub roll_window : Player → ℕ → Player
roll_window p now =
    if leb 1000 (now - p.rate_window_start_ms)
    then record p { rate_window_start_ms = now; rate_window_count = 0; rate_limited = false }
    else p

unfoldable pub count_packet : Player → Player × Bool
count_packet p =
    if ltb max_packets_per_second (suc p.rate_window_count)
    then (record p { rate_window_count = suc p.rate_window_count; rate_limited = true }, false)
    else (record p { rate_window_count = suc p.rate_window_count }, true)

unfoldable pub accept_rate : Player → ℕ → Player × Bool
unfolding roll_window count_packet
accept_rate p now = count_packet (roll_window p now)

-- `can_open` says whether the state file opens for writing.
unfoldable pub persist_anchor : Bool → Server → Server × List Effect
persist_anchor can_open srv = elim srv.config.state_file [
  | [] ↦ (srv, [])
  | _ ∷ _ ↦ elim (anchor_player srv.players) [
    | none ↦ (srv, [])
    | some a ↦
        if can_open
        then (
          record srv { persisted_anchor = a.position; persisted_anchor_known = true },
          write_state_file a.position ∷ [],
        )
        else (srv, [])
  ]
]

-- The state file as read back: `none` if it does not open or does not hold three numbers.
unfoldable pub load_persisted_anchor : Option Vec3 → Server → Server
load_persisted_anchor file srv = elim srv.config.state_file [
  | [] ↦ srv
  | _ ∷ _ ↦ elim file [
    | none ↦ srv
    | some v ↦ record srv { persisted_anchor = v; persisted_anchor_known = true }
  ]
]

-- RelayServer(config): no peer, no player.
abbrev pub new_server : Config → Server
new_server c = record {
  config = c;
  running = false;
  players = [];
  started_at_ms = 0;
  last_persist_ms = 0;
  persisted_anchor = zero_vec;
  persisted_anchor_known = false;
}

-- `has_peer` and `started`: the peer's instance was made, and Startup returned RAKNET_STARTED.
unfoldable pub start : Bool → Bool → ℕ → Option Vec3 → Server → Server × Bool
unfolding load_persisted_anchor
start has_peer started now file srv =
    if has_peer
    then if started
      then (
        load_persisted_anchor file
            (record srv { running = true; started_at_ms = now; last_persist_ms = now }),
        true,
      )
      else (record srv { running = false }, false)
    else (record srv { running = false }, false)

pub data Kind : Type 0 where
  connection create movement rotation drop other : Kind

-- The ids of SLikeNet's own messages, by their place in its enumeration.
abbrev pub disconnection_notification_id : ℕ
disconnection_notification_id = 21

abbrev pub connection_lost_id : ℕ
connection_lost_id = 22

-- The cases of the switch; `other` stands for those that only log.
unfoldable pub kind_of : ℕ → Kind
kind_of id =
    if id == connection_notification_id
    then connection
    else if id == create_net_player_id
    then create
    else if id == player_movement_id
    then movement
    else if id == player_rotation_id
    then rotation
    else if id == disconnection_notification_id
    then drop
    else if id == connection_lost_id
    then drop
    else other

-- `p->lastPacketMs = NowMs(); p->packetsIn++`
abbrev pub touch : Player → ℕ → Player
touch p now = record p { last_packet_ms = now; packets_in = (p.packets_in + 1) % 2 ^ 64 }

-- The two readings of the clock behind the loop: the test's, and the one that is kept.
unfoldable pub persist_if_due : Bool → ℕ → ℕ → Server → Server × List Effect
persist_if_due can_open checked_ms kept_ms srv =
    if ltb persist_interval_ms (checked_ms - srv.last_persist_ms)
    then persist_anchor can_open (record srv { last_persist_ms = kept_ms })
    else (srv, [])

module _ (s : BitStream) where
  unfoldable pub handle : Kind → Server → Packet → ℕ → Server × List Effect
  handle connection srv k now = handle_connection_notification s srv k now
  handle create srv k now = handle_create_net_player s srv k
  handle movement srv k now = handle_player_movement s srv k
  handle rotation srv k now = handle_player_rotation s srv k
  handle drop srv k now = handle_drop s srv k
  handle other srv k now = (srv, [])

  -- A known sender is counted first, and a packet over its limit goes no further.
  unfoldable pub receive_from : Server → Arrival → Option Player → Server × List Effect
  receive_from srv a none = handle (kind_of a.packet.id) srv a.packet a.handled_at_ms
  receive_from srv a (some p) =
      let (q, accepted) = accept_rate (touch p a.at_ms) a.at_ms in
      let srv' : Server =
        with_players srv (replace_by_address a.packet.system_address q srv.players) in
      if accepted then handle (kind_of a.packet.id) srv' a.packet a.handled_at_ms else (srv', [])

  -- One round of the loop in Tick.
  unfoldable pub receive : Server → Arrival → Server × List Effect
  unfolding receive_from
  receive srv a = receive_from srv a (find_by_address a.packet.system_address srv.players)

  unfoldable pub receive_all : Server → List Arrival → Server × List Effect
  receive_all srv [] = (srv, [])
  receive_all srv (a ∷ as') =
      let (srv₁, e₁) = receive srv a in let (srv₂, e₂) = receive_all srv₁ as' in (srv₂, e₁ ++ e₂)

  unfoldable pub tick : Server → List Arrival → Bool → ℕ → ℕ → Server × List Effect
  unfolding receive_all persist_if_due
  tick srv arrivals can_open checked_ms kept_ms =
      if not srv.running
      then (srv, [])
      else let (srv₁, e₁) = receive_all srv arrivals in
        let (srv₂, e₂) = persist_if_due can_open checked_ms kept_ms srv₁ in (srv₂, e₁ ++ e₂)

  -- The loop of Stop over `all`, the players as they stand.
  unfoldable pub say_goodbye : List Player → List Player → List Effect
  say_goodbye all [] = []
  say_goodbye all (p ∷ ps) =
      (if p.spawned
        then relay_except p.network_id (payload s (destroy_net_player p.network_id))
            reliable_ordered all
        else [])
      ++ say_goodbye all ps

  unfoldable pub stop : Bool → Server → Server × List Effect
  unfolding persist_anchor say_goodbye
  stop can_open srv =
      if not srv.running
      then (srv, [])
      else let (srv₁, e) = persist_anchor can_open srv in
        (record srv₁ { players = []; running = false }, e ++ say_goodbye srv₁.players srv₁.players)

-- StatusSnapshot and its entries; an address is printed by the library.
pub record SnapshotEntry : Type 0 where
  pub network_id : ℕ
  pub address : ℕ
  pub spawned : Bool
  pub position : Vec3
  pub connected_for_ms : ℕ

pub record Snapshot : Type 0 where
  pub running : Bool
  pub player_count : ℕ
  pub max_players : ℕ
  pub game_port : ℕ
  pub uptime_ms : ℕ
  pub anchor : Option Vec3  -- none: anchorKnown is false
  pub players : List SnapshotEntry

abbrev pub snapshot_anchor : Server → Option Player → Option Vec3
snapshot_anchor srv (some a) = some a.position
snapshot_anchor srv none = if srv.persisted_anchor_known then some srv.persisted_anchor else none

-- `uptime_now` and `now` are the two readings of the clock.
unfoldable pub snapshot : ℕ → ℕ → Server → Snapshot
snapshot uptime_now now srv = record {
  running = srv.running;
  player_count = length srv.players;
  max_players = srv.config.max_players;
  game_port = srv.config.game_port;
  uptime_ms = uptime_now - srv.started_at_ms;
  anchor = snapshot_anchor srv (anchor_player srv.players);
  players =
      map
        (λ p. record {
          network_id = p.network_id;
          address = p.address;
          spawned = p.spawned;
          position = p.position;
          connected_for_ms = now - p.connected_at_ms;
        })
        srv.players;
}
