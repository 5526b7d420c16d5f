-- ===== src/Mod/Session.antt =====
-- A session of the mod: Core/Multiplayer/Network/NetworkDispatcher.cpp with the callbacks that
-- NetMainGameComponent.cpp registers, one for each event, and Host, Connect and Disconnect of
-- Network.cpp. The three callbacks of Connect stand only where the mod has joined a host.
use crossover.Prelude.{
  ℕ, Bool, true, false, not, List, [], ◌∷◌, ◌++◌, length, Option, none, some, ◌==◌, ◌&&◌,
  if◌then◌else◌,
}
use crossover.Wire.Bytes.{zero_vec, BitStream, read_int, read_vec}
use crossover.Wire.Messages.{
  Entry, Message, Motion, connection_notification_id, create_local_net_player_id,
  create_net_player_id, create_net_players_id, destroy_net_player_id, player_movement_id,
  player_rotation_id, read_entry, read_motion, read_create_net_players,
}
use crossover.Relay.State.{Packet, reliable_ordered, payload}
use crossover.Relay.Session.{disconnection_notification_id, connection_lost_id}
use crossover.Mod.Network.{
  SystemAddress, Connection, no_id, no_connection, Network, Sent, send_to, erase_connection,
  get_free_network_id, get_network_id_from_address,
}
use crossover.Mod.Engine.{Engine}
use crossover.Mod.Players.{State, Outcome}
use crossover.Mod.Motion.{receive_net_player_movement, receive_net_player_rotation}
use crossover.Mod.Lifecycle.{
  create_net_player, create_net_players, destroy_net_player, destroy_net_players,
}
use crossover.Mod.Local.{create_local_net_player, destroy_local_net_player, connection_notification}

-- A call goes on in a new state, follows a null pointer, or never returns.
pub data Ending (G : Type 0) : Type 0 where
  goes_on : (st : State G) (sent : List Sent) → Ending G
  crashes : Ending G
  hangs : Ending G

abbrev pub of_outcome : {G : Type 0} → Outcome G → Ending G
of_outcome none = crashes
of_outcome (some (st, sent)) = goes_on st sent

abbrev pub of_loop : {G : Type 0} → Option (Outcome G) → Ending G
of_loop none = hangs
of_loop (some o) = of_outcome o

abbrev pub sending : {G : Type 0} → List Sent → Ending G → Ending G
sending sent (goes_on st more) = goes_on st (sent ++ more)
sending sent crashes = crashes
sending sent hangs = hangs

abbrev pub then_run : {G : Type 0} → Ending G → (State G → Ending G) → Ending G
then_run (goes_on st sent) k = sending sent (k st)
then_run crashes k = crashes
then_run hangs k = hangs

abbrev pub with_network : {G : Type 0} → State G → Network → State G
with_network st n = record st { network = n }

-- Whether this mod hosts, or has joined a host.
pub data Role : Type 0 where
  hosting joined : Role

-- The cases of the switch in Update; `other` only logs, and so does a new incoming connection, for
-- which nothing is registered.
pub data Event : Type 0 where
  accepted notification create_local create_one create_many moves turns leaves destroys : Event
  attempt_failed other : Event

-- Of SLikeNet's enumeration.
abbrev pub connection_request_accepted_id : ℕ
connection_request_accepted_id = 16

abbrev pub connection_attempt_failed_id : ℕ
connection_attempt_failed_id = 17

unfoldable pub event_of : ℕ → Event
event_of id =
    if id == connection_request_accepted_id
    then accepted
    else if id == connection_notification_id
    then notification
    else if id == create_local_net_player_id
    then create_local
    else if id == create_net_player_id
    then create_one
    else if id == create_net_players_id
    then create_many
    else if id == player_movement_id
    then moves
    else if id == player_rotation_id
    then turns
    else if id == disconnection_notification_id
    then leaves
    else if id == connection_lost_id
    then leaves
    else if id == destroy_net_player_id
    then destroys
    else if id == connection_attempt_failed_id
    then attempt_failed
    else other

module _ {G : Type 0} (e : Engine G) (s : BitStream) (resolve : List ℕ → ℕ → SystemAddress)
    (bound : SystemAddress) where
  -- RemoveConnections, behind its callback, then RemoveSelf and ClearSession.
  unfoldable pub forget_session : State G → State G
  forget_session st =
      let st' : State G =
        destroy_local_net_player e (with_network st (record (st.network) { connections = [] })) in
      with_network st' (record (st'.network) { self = no_connection; ip = []; port = 0 })

  -- Network::Disconnect. Its loop gets a round for each player; Mod/Endless is about why a loop that
  -- needs more never ends.
  unfoldable pub disconnect : State G → Ending G
  disconnect st =
      if st.network.active
      then (then_run
          (of_loop (
            destroy_net_players e s (length st.players.net_players)
              (with_network st (record (st.network) { active = false }))))
          λ st'. goes_on (forget_session st') [])
      else goes_on st []

  abbrev pub numbered : Packet → State G → Option ℕ → Ending G
  numbered k st none = hangs
  numbered k st (some i) = of_outcome (
      connection_notification e s resolve i (some k.system_address) (
        with_network st (record (st.network) {
          connections =
              st.network.connections
              ++ record { address = some k.system_address; network_id = i } ∷ [];
        })))

  unfoldable pub handle_notification : Packet → State G → Ending G
  handle_notification k st = numbered k st (get_free_network_id st.network.connections)

  unfoldable pub handle_create_local : Packet → State G → Ending G
  handle_create_local k st =
      let (i, rest) = read_int s no_id k.body in
      let (at, _) = read_vec s zero_vec rest in
      goes_on
        (create_local_net_player e i at (
          with_network st
            (record (st.network) { self = record { address = bound; network_id = i } })))
        []

  -- The loop of the CreateNetPlayers callback.
  unfoldable pub create_entries : List Entry → State G → Ending G
  create_entries [] st = goes_on st []
  create_entries (en ∷ es) st =
      then_run (of_outcome (create_net_players e s en st)) (create_entries es)

  -- RemoveConnection.
  unfoldable pub remove_connection : ℕ → State G → Ending G
  remove_connection i st = then_run (of_outcome (destroy_net_player e s i st)) λ st'.
      goes_on
        (with_network st'
          (record (st'.network) { connections = erase_connection i st'.network.connections }))
        []

  -- The callbacks of Connect.
  abbrev pub if_host_left : Role → ℕ → State G → Ending G
  if_host_left hosting i st = goes_on st []
  if_host_left joined i st = if i == 0 then disconnect st else goes_on st []

  unfoldable pub handle_leaving : Role → Packet → State G → Ending G
  handle_leaving role k st =
      let i : ℕ = get_network_id_from_address resolve st.network (some k.system_address) in
      then_run (remove_connection i st) (if_host_left role i)

  abbrev pub if_failed : Role → State G → Ending G
  if_failed hosting st = goes_on st []
  if_failed joined st = disconnect st

  unfoldable pub handle_event : Event → Role → Packet → State G → Ending G
  handle_event accepted role k st =
      goes_on st (
        send_to (payload s Message.connection_notification) reliable_ordered
          (some k.system_address))
  handle_event notification role k st = handle_notification k st
  handle_event create_local role k st = handle_create_local k st
  handle_event create_one role k st =
      of_outcome (create_net_player e s (read_entry s (e.unset k.body 0) k.body).0 st)
  handle_event create_many role k st =
      create_entries (read_create_net_players s (e.unset k.body) k.body) st
  handle_event moves role k st =
      let m : Motion = read_motion s k.body in
      of_outcome (some (receive_net_player_movement s resolve m.claimed_id m.first m.second st))
  handle_event turns role k st =
      let m : Motion = read_motion s k.body in
      of_outcome (some (receive_net_player_rotation s resolve m.claimed_id m.first m.second st))
  handle_event leaves role k st = handle_leaving role k st
  handle_event destroys role k st =
      of_outcome (destroy_net_player e s (read_int s no_id k.body).0 st)
  handle_event attempt_failed role k st = if_failed role st
  handle_event other role k st = goes_on st []

  -- Over the packets that Receive returns.
  unfoldable pub handle_all : Role → List Packet → State G → Ending G
  handle_all role [] st = goes_on st []
  handle_all role (k ∷ ks) st =
      then_run (handle_event (event_of k.id) role k st) (handle_all role ks)

  unfoldable pub update : Role → List Packet → State G → Ending G
  update role ks st = if st.network.active then handle_all role ks st else goes_on st []

  -- Network::Host with the peer's answers: whether it is active, and Startup succeeds. The callback
  -- is given a stream that holds only the id, so its position stays zero.
  abbrev pub seated : State G → Option ℕ → Ending G
  seated st none = hangs
  seated st (some i) =
      let c : Connection = record { address = bound; network_id = i } in
      goes_on
        (create_local_net_player e i zero_vec (
          with_network st
            (record (st.network) { self = c; connections = st.network.connections ++ c ∷ [] })))
        []

  unfoldable pub host : ℕ → Bool → State G → Ending G
  host port started st =
      let st' : State G = with_network st (record (st.network) { port = port }) in
      if st.network.active
      then goes_on st' []
      else if started
      then seated (with_network st' (record (st'.network) { active = true }))
          (get_free_network_id st.network.connections)
      else goes_on st' []

  -- Network::Connect.
  unfoldable pub connect : List ℕ → ℕ → Bool → State G → State G
  connect ip port started st =
      let n : Network = record (st.network) { ip = ip; port = port } in
      if not st.network.active && started
      then with_network st (record n { active = true })
      else with_network st n
