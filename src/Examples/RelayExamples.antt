-- ===== src/Examples/RelayExamples.antt =====
-- The relay's theorems at a server with two players in the world.
use crossover.Prelude.{
  ℕ, ◌+◌, ◌*◌, ◌/◌, ◌-◌, ◌≤◌, ◌≡◌, refl, true, false, [], ◌∷◌, All, none, some, arith,
}
use crossover.Config.{Config, anchor}
use crossover.Wire.Bytes.{Vec3, zero_vec, BitStream}
use crossover.Wire.SelfTest.{network_order}
use crossover.Wire.Messages.{
  Entry, create_net_player, player_movement, write_body, player_movement_id, create_net_player_id,
  connection_notification_id, Message,
}
use crossover.Ids.{IsLowestFree}
use crossover.Relay.State.{Player, Server, Packet, Arrival, unreliable_sequenced, payload}
use crossover.Relay.Lookup.{
  ids, find_by_address, allocate_network_id, spawn_position_for, first_client_network_id,
}
use crossover.Relay.Handlers.{
  new_player, spawn_player, handle_create_net_player, handle_player_movement, handle_drop,
  handle_connection_notification,
}
use crossover.Relay.Session.{
  new_server, start, receive, kind_of, disconnection_notification_id, max_packets_per_second,
}
use crossover.Relay.Members.{allocate_network_id_lem}
use crossover.Relay.Invariant.{Inv, ticks, stops, life, life-start-Inv}
use crossover.Relay.Relayed.{Relayed, handle_player_movement_relays}
use crossover.Relay.Joining.{Announced, handle_create_net_player_announces}
use crossover.Relay.Leaving.{Left, handle_drop_tells}
use crossover.Relay.Quiet.{IsQuiet, receive-IsQuiet}
use crossover.Relay.Rate.{accepted, accepted-le, reconnect_after_flood}
use crossover.Relay.Rendezvous.{newcomer_becomes_anchor}

abbrev plain : Config
plain = record {
  game_port = 60000;
  tunnel_port = 60001;
  tunnel_enabled = true;
  status_port = 8080;
  max_players = 8;
  spawn_mode = anchor;
  spawn = zero_vec;
  spawn_configured = false;
  state_file = [];
  tick_hz = 60;
  verbose = false;
}

abbrev spot : Vec3
spot = record { x = 0x3f80_0000; y = 0x4000_0000; z = 0x4040_0000 }

abbrev hello : Packet
hello = record { system_address = 13; guid = 103; id = connection_notification_id; body = [] }

abbrev first : Player
first = record (new_player (record hello { system_address = 11 }) 1 0) {
  spawned = true;
  position = spot;
}

abbrev second : Player
second = record (new_player (record hello { system_address = 12 }) 2 5) { spawned = true }

abbrev two : Server
two = record (new_server plain) { running = true; players = first ∷ second ∷ [] }

two-Inv : Inv two
two-Inv = record {
  distinct_ids = (refl, (refl, tt));
  distinct_addresses = (refl, (refl, tt));
  few = omega arith;
  in_range = omega arith;
}

first_known : find_by_address 11 two.players ≡ some first
unfolding find_by_address
first_known = refl

second_known : find_by_address 12 two.players ≡ some second
unfolding find_by_address
second_known = refl

abbrev s : BitStream
s = network_order

abbrev from_first : ℕ → Message → Packet
from_first i m = record { system_address = 11; guid = 101; id = i; body = write_body s m }

abbrev entry : Entry
entry = record { network_id = 7; def_global_index = 42; position = spot }

life-start-Inv_example : Inv (
    life s (start true true 0 none (new_server plain)).0 (
      ticks (record { packet = hello; at_ms = 1; handled_at_ms = 2 } ∷ []) false 3 4
      ∷ stops true
      ∷ []))
life-start-Inv_example = life-start-Inv s true true 0 none plain (
    ticks (record { packet = hello; at_ms = 1; handled_at_ms = 2 } ∷ []) false 3 4
    ∷ stops true
    ∷ [])

handle_player_movement_relays_example :
    Relayed 11 12
      (record first { position = zero_vec })
      second
      (payload s (player_movement 1 zero_vec spot))
      unreliable_sequenced
      (handle_player_movement s two
        (from_first player_movement_id (player_movement 9 zero_vec spot)))
handle_player_movement_relays_example =
    handle_player_movement_relays s two
      (from_first player_movement_id (player_movement 9 zero_vec spot)) 12 first second two-Inv
      first_known second_known (omega arith) 9 zero_vec spot refl (omega arith)
      (omega arith, omega arith, omega arith) (omega arith, omega arith, omega arith) refl

handle_create_net_player_announces_example :
    Announced s 11 12
      (spawn_player first entry)
      second
      two.players
      (handle_create_net_player s two (from_first create_net_player_id (create_net_player entry)))
handle_create_net_player_announces_example =
    handle_create_net_player_announces s two
      (from_first create_net_player_id (create_net_player entry)) 12 first second two-Inv
      first_known second_known (omega arith) entry
      (omega arith, omega arith, (omega arith, omega arith, omega arith)) refl

handle_drop_tells_example :
    Left s 11 12 first second
      (handle_drop s two (record hello { system_address = 11; id = disconnection_notification_id }))
handle_drop_tells_example =
    handle_drop_tells s two
      (record hello { system_address = 11; id = disconnection_notification_id }) 12 first second
      two-Inv first_known second_known (omega arith)

abbrev arrival : Packet → Arrival
arrival k = record { packet = k; at_ms = 20; handled_at_ms = 21 }

receive-IsQuiet_example :
    All (IsQuiet s (receive s two (arrival hello)).0.players 13) (receive s two (arrival hello)).1
receive-IsQuiet_example = receive-IsQuiet s two (arrival hello)

allocate_network_id_lem_example :
    (r : ℕ) × (allocate_network_id two.players ≡ some r)
    × IsLowestFree first_client_network_id (ids two.players) r
allocate_network_id_lem_example = allocate_network_id_lem two.players

accepted-le_example :
    accepted first (1 ∷ 900 ∷ 2100 ∷ []) ≤ max_packets_per_second * (1 + (2100 - 0) / 1000)
accepted-le_example = accepted-le first (1 ∷ 900 ∷ 2100 ∷ []) 2100 (omega arith)

-- The first player, with its window used up.
abbrev flooded : Server
flooded = record two { players = record first { rate_window_count = 600 } ∷ second ∷ [] }

flooded_known : find_by_address 11 flooded.players ≡ some (record first { rate_window_count = 600 })
unfolding find_by_address
flooded_known = refl

abbrev goodbye : Arrival
goodbye = arrival (record hello { system_address = 11; id = disconnection_notification_id })

reconnect_after_flood_example :
    (receive s (receive s flooded goodbye).0 (arrival (record hello { system_address = 11 }))).1
    ≡ []
unfolding kind_of
reconnect_after_flood_example =
    reconnect_after_flood s flooded goodbye (record first { rate_window_count = 600 }) flooded_known
      (omega arith) (omega arith) (arrival (record hello { system_address = 11 })) refl refl

-- The second player alone: the first has left.
abbrev left_over : Server
left_over = record two { players = second ∷ [] }

left_over-Inv : Inv left_over
left_over-Inv = record {
  distinct_ids = (refl, tt);
  distinct_addresses = (refl, tt);
  few = omega arith;
  in_range = omega arith;
}

nobody_at_13 : find_by_address 13 left_over.players ≡ none
unfolding find_by_address
nobody_at_13 = refl

newcomer_becomes_anchor_example :
    spawn_position_for
      (handle_create_net_player s
        (handle_connection_notification s left_over hello 9).0
        (record (from_first create_net_player_id (create_net_player entry)) {
          system_address = 13;
        })).0
    ≡ spot
newcomer_becomes_anchor_example =
    newcomer_becomes_anchor s left_over hello
      (record (from_first create_net_player_id (create_net_player entry)) { system_address = 13 }) 9
      entry left_over-Inv refl nobody_at_13 (omega arith) refl refl
      (omega arith, omega arith, (omega arith, omega arith, omega arith)) refl
