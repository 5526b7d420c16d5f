-- ===== src/Examples/ModExamples.antt =====
-- The mod's theorems in a small game, whose state is the list of the local ids that have a player.
use crossover.Prelude.{
  ℕ, true, false, not, List, [], ◌∷◌, Option, none, some, ◌==◌, ◌≡◌, refl, arith, contains, keep,
  if◌then◌else◌,
}
use crossover.Config.Environment.{Numerals}
use crossover.Wire.Bytes.{IsWord, zero_vec}
use crossover.Wire.Messages.{
  Entry, Message, write_body, create_net_player_id, destroy_net_player_id, player_movement_id,
  connection_notification_id,
}
use crossover.Wire.SelfTest.{network_order}
use crossover.Config.{Config, anchor}
use crossover.Relay.State.{Player, Server, Packet}
use crossover.Relay.Lookup.{find_by_address}
use crossover.Relay.Handlers.{new_player, handle_player_movement}
use crossover.Relay.Session.{new_server}
use crossover.Mod.Network.{Sent, SystemAddress, Connection, Network}
use crossover.Mod.Engine.{Engine}
use crossover.Mod.Players.{
  NetPlayer, LocalNetPlayer, State, get_local_id_from_network_id, local_id_among,
  get_creature_from_local_id, get_creature_from_network_id,
}
use crossover.Mod.Motion.{receive_net_player_movement}
use crossover.Mod.Lifecycle.{new_net_player, destroy_net_players}
use crossover.Mod.Session.{
  update, hosting, joined, event_of, hangs, goes_on, disconnect, handle_all,
}
use crossover.Mod.Component.{idle, Input, new_network, frames}
use crossover.Mod.ComponentInvariant.{IsAlive, Then, frames-IsAlive}
use crossover.Mod.Teardown.{Separates, state_of, Over, disconnect-ends}
use crossover.Mod.Endless.{shut_down, disconnect-hangs}
use crossover.Mod.Duplicates.{copies, left, duplicate_stays}
use crossover.Mod.Hosting.{Returns, update-Returns}
use crossover.Mod.Sameness.{sends_of, connection_of, handle_player_movement-same}

abbrev seat_of : List ℕ → ℕ → Option ℕ
seat_of g l = if contains g l then some l else none

abbrev small : Engine (List ℕ)
small = record {
  get_player = contains;
  controlled_creature = seat_of;
  create_player = λ g l. l ∷ g;
  create_creature = λ g d at l. (g, some l);
  set_controlled_creature = λ g l c. g;
  uninitialise = λ g l. keep (λ k. not (l == k)) g;
  get_pos = λ g c. zero_vec;
  movement_acceleration = λ g c. zero_vec;
  get_up = λ g c. zero_vec;
  get_forward = λ g c. zero_vec;
  def_global_index = λ g c. 7;
  set_position = λ g c at. g;
  set_movement_acceleration = λ g c a. g;
  set_rh_set = λ g c u f. g;
  set_as_loading_region = λ g at c. g;
  is_loading_region = λ g. false;
  drifted = λ a b. false;
  unset = λ bs n. 3;
}

contains-others :
    (l k : ℕ) (g : List ℕ)
    → (l == k) ≡ false
    → contains (keep (λ j. not (l == j)) g) k ≡ contains g k
contains-others l k [] h = refl
contains-others l k (j ∷ g) h = ground (arith, contains-others l k g)

small-Separates : Separates small
unfolding get_creature_from_local_id
small-Separates = record { others_stay = λ g l k h. rw (contains-others l k g h) refl }

abbrev at_host : List ℕ → ℕ → SystemAddress
at_host ip port = some 1

never : {n : ℕ} → none ≡ some n → IsWord n
never h = absurd (ground arith)

abbrev no_numerals : Numerals
no_numerals = record { stoi = λ t. none; stoi-IsWord = λ t h. never h; stof = λ t. none }

abbrev host_pressed : Input
host_pressed = record {
  numpad1 = true;
  numpad2 = false;
  numpad3 = false;
  ip_line = [];
  port_line = [];
  started = true;
  packets =
      record { system_address = 5; guid = 5; id = connection_notification_id; body = [] } ∷ [];
}

frames-IsAlive_example :
    Then IsAlive
      (frames small network_order at_host (some 2) no_numerals (host_pressed ∷ []) (idle (0 ∷ [])))
frames-IsAlive_example =
    frames-IsAlive small network_order at_host (some 2) no_numerals (host_pressed ∷ [])
      (idle (0 ∷ [])) tt

abbrev me : LocalNetPlayer
me = record { network_id = 1; local_id = 0 }

abbrev online : Network
online = record new_network { active = true }

abbrev two_others : List NetPlayer
two_others = new_net_player 2 1 ∷ new_net_player 3 2 ∷ []

disconnect-ends_example :
    (st : State (List ℕ)) × (sent : _) × (disconnect small network_order at_host
        (some 2)
        (state_of (0 ∷ 1 ∷ 2 ∷ []) online me two_others [] none)
      ≡ goes_on st sent)
    × Over small st
unfolding get_creature_from_local_id
disconnect-ends_example =
    disconnect-ends small network_order at_host (some 2) online me none small-Separates
      (0 ∷ 1 ∷ 2 ∷ []) two_others [] refl (refl, (refl, tt)) ((1, refl), ((2, refl), tt))
      (refl, (refl, tt))

-- The second player of the game is gone.
abbrev gone : State (List ℕ)
gone = state_of (0 ∷ []) online me two_others [] none

absent : get_creature_from_network_id small gone.game gone.players 2 ≡ none
unfolding get_creature_from_network_id get_creature_from_local_id get_local_id_from_network_id
    local_id_among
absent = refl

disconnect-hangs_example :
    (disconnect small network_order at_host (some 2) gone ≡ hangs)
    × ((fuel : ℕ) → destroy_net_players small network_order fuel (shut_down gone) ≡ none)
disconnect-hangs_example =
    disconnect-hangs small network_order at_host (some 2) gone (new_net_player 2 1)
      (new_net_player 3 2 ∷ []) refl refl absent

abbrev en : Entry
en = record { network_id = 4; def_global_index = 7; position = zero_vec }

abbrev spawn_message : Packet
spawn_message = record {
  system_address = 1;
  guid = 1;
  id = create_net_player_id;
  body = write_body network_order (Message.create_net_player en);
}

abbrev destroy_message : Packet
destroy_message = record {
  system_address = 1;
  guid = 1;
  id = destroy_net_player_id;
  body = write_body network_order (Message.destroy_net_player 4);
}

abbrev started : State (List ℕ)
started = state_of (0 ∷ []) online me [] [] none

made : (g : List ℕ) (seat : ℕ) → contains (seat ∷ g) seat ≡ true
made g seat = ground arith

duplicate_stays_example :
    let all = handle_all small network_order at_host (some 2) joined in
    (two one : State (List ℕ)) × (sent sent' : List Sent) × (all
        (spawn_message ∷ spawn_message ∷ [])
        started
      ≡ goes_on two sent)
    × (copies 4 two ≡ 2)
    × (all (spawn_message ∷ spawn_message ∷ destroy_message ∷ []) started ≡ goes_on one sent')
    × (copies 4 one ≡ left 1 (get_creature_from_network_id small two.game two.players 4))
unfolding event_of
duplicate_stays_example =
    duplicate_stays small network_order at_host (some 2) joined me en
      (omega arith, omega arith, (omega arith, omega arith, omega arith)) made spawn_message
      spawn_message destroy_message started refl refl refl refl refl refl refl refl

-- Two clients of the server, with ids 1 and 2.
abbrev client : ℕ → ℕ → Player
client a i = record (new_player (record { system_address = a; guid = a; id = 0; body = [] }) i 0) {
  spawned = true;
}

abbrev server : Config → Server
server c = record (new_server c) { players = client 11 1 ∷ client 12 2 ∷ [] }

abbrev step : Packet
step = record {
  system_address = 11;
  guid = 11;
  id = player_movement_id;
  body = write_body network_order (Message.player_movement 1 zero_vec zero_vec);
}

abbrev plain : Config
plain = record {
  game_port = 60000;
  tunnel_port = 60001;
  tunnel_enabled = true;
  status_port = 8080;
  max_players = 8;
  spawn_mode = anchor;
  spawn = zero_vec;
  spawn_configured = false;
  state_file = [];
  tick_hz = 60;
  verbose = false;
}

abbrev host_self : Connection
host_self = record { address = some 9; network_id = 0 }

abbrev hosting_same : State (List ℕ)
hosting_same =
    state_of (0 ∷ [])
      (record online {
        connections = host_self ∷ connection_of (client 11 1) ∷ connection_of (client 12 2) ∷ [];
      })
      (record { network_id = 0; local_id = 0 }) [] [] none

known : find_by_address 11 (server plain).players ≡ some (client 11 1)
unfolding find_by_address
known = refl

handle_player_movement-same_example :
    sends_of (handle_player_movement network_order (server plain) step).1
    ≡ (receive_net_player_movement network_order at_host 1 zero_vec zero_vec hosting_same).1
handle_player_movement-same_example =
    handle_player_movement-same network_order at_host (server plain) step (client 11 1) hosting_same
      (record { network_id = 0; local_id = 0 }) host_self zero_vec zero_vec
      ((refl, omega arith), ((refl, omega arith), tt)) known refl (omega arith)
      (omega arith, omega arith, omega arith) (omega arith, omega arith, omega arith) refl
      (omega arith) refl refl refl refl

update-Returns_example : Returns (
    update small network_order at_host
      (some 2)
      hosting
      (spawn_message ∷ destroy_message ∷ [])
      hosting_same)
update-Returns_example =
    update-Returns small network_order at_host (some 2) (spawn_message ∷ destroy_message ∷ [])
      hosting_same tt
