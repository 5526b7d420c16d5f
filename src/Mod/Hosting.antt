-- ===== src/Mod/Hosting.antt =====
-- A mod of Core/Multiplayer that hosts follows no null pointer and always returns.
use crossover.Prelude.{ℕ, List, [], ◌∷◌, Option, none, some, if_cases}
use crossover.Wire.Bytes.{zero_vec, BitStream, read_int, read_vec}
use crossover.Wire.Messages.{Entry, read_entry, read_create_net_players}
use crossover.Relay.State.{Packet}
use crossover.Mod.Network.{SystemAddress, no_id, Sent, get_network_id_from_address}
use crossover.Mod.Engine.{Engine}
use crossover.Mod.Players.{LocalNetPlayer, State, Outcome}
use crossover.Mod.Motion.{receive_net_player_movement, receive_net_player_rotation}
use crossover.Mod.Local.{welcome, connection_notification}
use crossover.Mod.Session.{
  Ending, goes_on, crashes, hangs, of_outcome, sending, then_run, hosting, Event, accepted,
  notification, create_local, create_one, create_many, moves, turns, leaves, destroys,
  attempt_failed, other, event_of, handle_notification, handle_create_local, create_entries,
  remove_connection, handle_leaving, handle_event, handle_all, update,
}
use crossover.Mod.Tables.{get_free_network_id_lem}
use crossover.Mod.HostPlayers.{
  Present, HasLocal, Runs, create_local_net_player-HasLocal, create_net_player-Runs,
  create_net_players-Runs, destroy_net_player-Runs,
}

-- The call returns, and there still is one.
abbrev pub Returns : {G : Type 0} → Ending G → Type 0
Returns (goes_on st _) = HasLocal st
Returns crashes = ⊥
Returns hangs = ⊥

of_outcome-Returns : {G : Type 0} (o : Outcome G) → Runs o → Returns (of_outcome o)
of_outcome-Returns none v = v
of_outcome-Returns (some r) v = v

sending-Returns :
    {G : Type 0} (sent : List Sent) (r : Ending G) → Returns r → Returns (sending sent r)
sending-Returns sent (goes_on st more) v = v
sending-Returns sent crashes v = v
sending-Returns sent hangs v = v

then_run-Returns :
    {G : Type 0} (r : Ending G) (k : State G → Ending G)
    → Returns r
    → ((st : State G) → HasLocal st → Returns (k st))
    → Returns (then_run r k)
then_run-Returns (goes_on st sent) k v f = sending-Returns sent (k st) (f st v)
then_run-Returns crashes k v f = v
then_run-Returns hangs k v f = v

module _ {G : Type 0} (e : Engine G) (s : BitStream) (resolve : List ℕ → ℕ → SystemAddress)
    (bound : SystemAddress) where
  welcome-Runs :
      (i : ℕ) (a : SystemAddress) (st : State G) (o : Option LocalNetPlayer)
      → Present o
      → HasLocal st
      → Runs (welcome e s resolve i a st o)
  welcome-Runs i a st none p v = p
  welcome-Runs i a st (some l) p v = v

  handle_notification-Returns :
      (k : Packet) (st : State G)
      → HasLocal st
      → Returns (handle_notification e s resolve bound k st)
  unfolding handle_notification connection_notification
  handle_notification-Returns k st v =
      let (i, eq, _) = get_free_network_id_lem st.network.connections in
      rw eq (
        of_outcome-Returns _
          (welcome-Runs i (some k.system_address) _ st.players.local_net_player v v))

  create_entries-Returns :
      (es : List Entry) (st : State G)
      → HasLocal st
      → Returns (create_entries e s resolve bound es st)
  unfolding create_entries
  create_entries-Returns [] st v = v
  create_entries-Returns (en ∷ es) st v =
      then_run-Returns _ _ (of_outcome-Returns _ (create_net_players-Runs e s en st v))
        (λ st' v'. create_entries-Returns es st' v')

  handle_leaving-Returns :
      (k : Packet) (st : State G)
      → HasLocal st
      → Returns (handle_leaving e s resolve bound hosting k st)
  unfolding handle_leaving remove_connection
  handle_leaving-Returns k st v =
      then_run-Returns _ _
        (then_run-Returns _ _
          (of_outcome-Returns _ (
            destroy_net_player-Runs e s
              (get_network_id_from_address resolve st.network (some k.system_address)) st v))
          (λ st' v'. v'))
        (λ st' v'. v')

  handle_event-Returns :
      (ev : Event) (k : Packet) (st : State G)
      → HasLocal st
      → Returns (handle_event e s resolve bound ev hosting k st)
  unfolding handle_event handle_create_local receive_net_player_movement receive_net_player_rotation
  handle_event-Returns accepted k st v = v
  handle_event-Returns notification k st v = handle_notification-Returns k st v
  handle_event-Returns create_local k st v =
      create_local_net_player-HasLocal e (read_int s no_id k.body).0
        (read_vec s zero_vec (read_int s no_id k.body).1).0 _ v
  handle_event-Returns create_one k st v =
      of_outcome-Returns _
        (create_net_player-Runs e s (read_entry s (e.unset k.body 0) k.body).0 st v)
  handle_event-Returns create_many k st v =
      create_entries-Returns (read_create_net_players s (e.unset k.body) k.body) st v
  handle_event-Returns moves k st v = v
  handle_event-Returns turns k st v = v
  handle_event-Returns leaves k st v = handle_leaving-Returns k st v
  handle_event-Returns destroys k st v =
      of_outcome-Returns _ (destroy_net_player-Runs e s (read_int s no_id k.body).0 st v)
  handle_event-Returns attempt_failed k st v = v
  handle_event-Returns other k st v = v

  handle_all-Returns :
      (ks : List Packet) (st : State G)
      → HasLocal st
      → Returns (handle_all e s resolve bound hosting ks st)
  unfolding handle_all
  handle_all-Returns [] st v = v
  handle_all-Returns (k ∷ ks) st v =
      then_run-Returns _ _ (handle_event-Returns (event_of k.id) k st v)
        (λ st' v'. handle_all-Returns ks st' v')

  -- A mod that hosts and has a local player follows no null pointer and always returns, whatever
  -- packets come in, and it keeps a local player.
  pub update-Returns :
      (ks : List Packet) (st : State G)
      → HasLocal st
      → Returns (update e s resolve bound hosting ks st)
  unfolding update
  update-Returns ks st v =
      if_cases {A = Ending G} Returns st.network.active (λ _. handle_all-Returns ks st v) (λ _. v)
