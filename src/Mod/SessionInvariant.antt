-- ===== src/Mod/SessionInvariant.antt =====
-- The same over a whole session of the mod, the local player and the connections included.
use crossover.Prelude.{
  ℕ, Bool, true, false, not, List, [], ◌∷◌, ◌++◌, length, Option, none, some, ◌==◌, ◌&&◌, ◌≡◌,
  if_cases, contains, IsDistinct, IsDistinct-append,
}
use mathlib.Core.List.{map-append}
use crossover.Wire.Bytes.{zero_vec, BitStream, read_int, read_vec}
use crossover.Wire.Messages.{Entry, read_entry, read_create_net_players}
use crossover.Relay.State.{Packet}
use crossover.Mod.Network.{SystemAddress, Connection, no_id, Sent, network_ids}
use crossover.Mod.Engine.{Engine}
use crossover.Mod.Players.{LocalNetPlayer, State, Outcome}
use crossover.Mod.Local.{welcome, connection_notification}
use crossover.Mod.Session.{
  Ending, goes_on, crashes, hangs, of_outcome, of_loop, sending, then_run, with_network, Role,
  hosting, joined, Event, accepted, notification, create_local, create_one, create_many, moves,
  turns, leaves, destroys, attempt_failed, other, event_of, forget_session, disconnect,
  handle_notification, handle_create_local, create_entries, remove_connection, if_host_left,
  handle_leaving, if_failed, handle_event, handle_all, update, seated, host, connect,
}
use crossover.Mod.Tables.{get_free_network_id_lem, erase_connection-IsDistinct}
use crossover.Mod.Invariant.{
  Tidy, IsTidy, IsTidyLoop, create_net_player-Tidy, create_net_players-Tidy,
  destroy_net_player-Tidy, destroy_net_players-Tidy, movement-Tidy, rotation-Tidy,
}
use crossover.Mod.LocalInvariant.{create_local_net_player-Tidy, destroy_local_net_player-Tidy}

-- If the call goes on, its state is such.
abbrev pub Leaves : {G : Type 0} → (State G → Type 0) → Ending G → Type 0
Leaves P (goes_on st _) = P st
Leaves P crashes = Unit
Leaves P hangs = Unit

pub of_outcome-Leaves : {G : Type 0} (o : Outcome G) → IsTidy o → Leaves Tidy (of_outcome o)
of_outcome-Leaves none v = tt
of_outcome-Leaves (some r) v = v

of_loop-Leaves : {G : Type 0} (o : Option (Outcome G)) → IsTidyLoop o → Leaves Tidy (of_loop o)
of_loop-Leaves none v = tt
of_loop-Leaves (some o) v = of_outcome-Leaves o v

pub sending-Leaves :
    {G : Type 0} (P : State G → Type 0) (sent : List Sent) (r : Ending G)
    → Leaves P r
    → Leaves P (sending sent r)
sending-Leaves P sent (goes_on st more) v = v
sending-Leaves P sent crashes v = tt
sending-Leaves P sent hangs v = tt

pub then_run-Leaves :
    {G : Type 0} (P Q : State G → Type 0) (r : Ending G) (k : State G → Ending G)
    → Leaves P r
    → ((st : State G) → P st → Leaves Q (k st))
    → Leaves Q (then_run r k)
then_run-Leaves P Q (goes_on st sent) k v f = sending-Leaves Q sent (k st) (f st v)
then_run-Leaves P Q crashes k v f = tt
then_run-Leaves P Q hangs k v f = tt

module _ {G : Type 0} (e : Engine G) where
  module _ (s : BitStream) (resolve : List ℕ → ℕ → SystemAddress) (bound : SystemAddress) where
    forget_session-Tidy : (st : State G) → Tidy st → Tidy (forget_session e s resolve bound st)
    unfolding forget_session
    forget_session-Tidy st v =
        destroy_local_net_player-Tidy e (with_network st (record (st.network) { connections = [] }))
          (tt, v.1)

    pub disconnect-Tidy : (st : State G) → Tidy st → Leaves Tidy (disconnect e s resolve bound st)
    unfolding disconnect
    disconnect-Tidy st v =
        if_cases {A = Ending G} (Leaves Tidy) st.network.active
          (λ _.
            then_run-Leaves Tidy Tidy _ _
              (of_loop-Leaves _ (
                destroy_net_players-Tidy e s (length st.players.net_players)
                  (with_network st (record (st.network) { active = false })) v))
              (λ st' v'. forget_session-Tidy st' v'))
          (λ _. v)

    welcome-Tidy :
        (i : ℕ) (a : SystemAddress) (st : State G) (o : Option LocalNetPlayer)
        → Tidy st
        → IsTidy (welcome e s resolve i a st o)
    welcome-Tidy i a st none v = tt
    welcome-Tidy i a st (some l) v = v

    connected-Tidy :
        (st : State G) (c : Connection)
        → Tidy st
        → contains (network_ids st.network.connections) c.network_id ≡ false
        → IsDistinct (network_ids (st.network.connections ++ c ∷ []))
    connected-Tidy st c v new =
        rw (map-append (λ (d : Connection). d.network_id) st.network.connections (c ∷ []))
          (IsDistinct-append (network_ids st.network.connections) c.network_id v.0 new)

    handle_notification-Tidy :
        (k : Packet) (st : State G)
        → Tidy st
        → Leaves Tidy (handle_notification e s resolve bound k st)
    unfolding handle_notification connection_notification
    handle_notification-Tidy k st v =
        let (i, eq, low) = get_free_network_id_lem st.network.connections in
        rw eq (
          of_outcome-Leaves _ (
            welcome-Tidy i (some k.system_address) _ st.players.local_net_player (
              connected-Tidy st (record { address = some k.system_address; network_id = i }) v
                  low.free,
              v.1,
            )))

    create_entries-Tidy :
        (es : List Entry) (st : State G)
        → Tidy st
        → Leaves Tidy (create_entries e s resolve bound es st)
    unfolding create_entries
    create_entries-Tidy [] st v = v
    create_entries-Tidy (en ∷ es) st v =
        then_run-Leaves Tidy Tidy _ _ (of_outcome-Leaves _ (create_net_players-Tidy e s en st v))
          (λ st' v'. create_entries-Tidy es st' v')

    remove_connection-Tidy :
        (i : ℕ) (st : State G) → Tidy st → Leaves Tidy (remove_connection e s resolve bound i st)
    unfolding remove_connection
    remove_connection-Tidy i st v =
        then_run-Leaves Tidy Tidy _ _ (of_outcome-Leaves _ (destroy_net_player-Tidy e s i st v))
          (λ st' v'. (erase_connection-IsDistinct i st'.network.connections v'.0, v'.1))

    if_host_left-Tidy :
        (role : Role) (i : ℕ) (st : State G)
        → Tidy st
        → Leaves Tidy (if_host_left e s resolve bound role i st)
    if_host_left-Tidy hosting i st v = v
    if_host_left-Tidy joined i st v =
        if_cases {A = Ending G} (Leaves Tidy) (i == 0) (λ _. disconnect-Tidy st v) (λ _. v)

    if_failed-Tidy :
        (role : Role) (st : State G) → Tidy st → Leaves Tidy (if_failed e s resolve bound role st)
    if_failed-Tidy hosting st v = v
    if_failed-Tidy joined st v = disconnect-Tidy st v

    handle_event-Tidy :
        (ev : Event) (role : Role) (k : Packet) (st : State G)
        → Tidy st
        → Leaves Tidy (handle_event e s resolve bound ev role k st)
    unfolding handle_event handle_create_local handle_leaving
    handle_event-Tidy accepted role k st v = v
    handle_event-Tidy notification role k st v = handle_notification-Tidy k st v
    handle_event-Tidy create_local role k st v =
        create_local_net_player-Tidy e (read_int s no_id k.body).0
          (read_vec s zero_vec (read_int s no_id k.body).1).0 _ v
    handle_event-Tidy create_one role k st v =
        of_outcome-Leaves _
          (create_net_player-Tidy e s (read_entry s (e.unset k.body 0) k.body).0 st v)
    handle_event-Tidy create_many role k st v =
        create_entries-Tidy (read_create_net_players s (e.unset k.body) k.body) st v
    handle_event-Tidy moves role k st v = movement-Tidy e s resolve _ _ _ st v
    handle_event-Tidy turns role k st v = rotation-Tidy e s resolve _ _ _ st v
    handle_event-Tidy leaves role k st v =
        then_run-Leaves Tidy Tidy _ _ (remove_connection-Tidy _ st v)
          (λ st' v'. if_host_left-Tidy role _ st' v')
    handle_event-Tidy destroys role k st v =
        of_outcome-Leaves _ (destroy_net_player-Tidy e s (read_int s no_id k.body).0 st v)
    handle_event-Tidy attempt_failed role k st v = if_failed-Tidy role st v
    handle_event-Tidy other role k st v = v

    handle_all-Tidy :
        (role : Role) (ks : List Packet) (st : State G)
        → Tidy st
        → Leaves Tidy (handle_all e s resolve bound role ks st)
    unfolding handle_all
    handle_all-Tidy role [] st v = v
    handle_all-Tidy role (k ∷ ks) st v =
        then_run-Leaves Tidy Tidy _ _ (handle_event-Tidy (event_of k.id) role k st v)
          (λ st' v'. handle_all-Tidy role ks st' v')

    pub update-Tidy :
        (role : Role) (ks : List Packet) (st : State G)
        → Tidy st
        → Leaves Tidy (update e s resolve bound role ks st)
    unfolding update
    update-Tidy role ks st v =
        if_cases {A = Ending G} (Leaves Tidy) st.network.active (λ _. handle_all-Tidy role ks st v)
          (λ _. v)

    seated-Tidy :
        (st : State G) (i : ℕ)
        → Tidy st
        → contains (network_ids st.network.connections) i ≡ false
        → Leaves Tidy (seated e s resolve bound st (some i))
    seated-Tidy st i v new =
        create_local_net_player-Tidy e i zero_vec _
          (connected-Tidy st (record { address = bound; network_id = i }) v new, v.1)

    pub host-Tidy :
        (port : ℕ) (started : Bool) (st : State G)
        → Tidy st
        → Leaves Tidy (host e s resolve bound port started st)
    unfolding host
    host-Tidy port started st v =
        let (i, eq, low) = get_free_network_id_lem st.network.connections in
        if_cases {A = Ending G} (Leaves Tidy) st.network.active (λ _. v)
          (λ _.
            if_cases {A = Ending G} (Leaves Tidy) started
              (λ _. rw eq (
                seated-Tidy (with_network st (record (st.network) { port = port; active = true })) i
                  v low.free))
              (λ _. v))

    pub connect-Tidy :
        (ip : List ℕ) (port : ℕ) (started : Bool) (st : State G)
        → Tidy st
        → Tidy (connect e s resolve bound ip port started st)
    unfolding connect
    connect-Tidy ip port started st v =
        if_cases {A = State G} Tidy (not st.network.active && started) (λ _. v) (λ _. v)
