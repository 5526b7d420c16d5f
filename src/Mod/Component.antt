-- ===== src/Mod/Component.antt =====
-- Core/Multiplayer/Fable/NetMainGameComponent/NetMainGameComponent.cpp: what the mod does in each
-- frame of the game, and when the game shuts down. `network` and `netPlayerManager` are made and
-- dropped together.
use crossover.Prelude.{ℕ, Bool, false, List, [], ◌∷◌, ◌++◌, none, some, if◌then◌else◌}
use crossover.Wire.Bytes.{BitStream}
use crossover.Config.Environment.{Numerals, unsigned_short}
use crossover.Relay.State.{Packet}
use crossover.Mod.Network.{SystemAddress, Network, no_connection, Sent}
use crossover.Mod.Engine.{Engine}
use crossover.Mod.Players.{Players, State}
use crossover.Mod.Session.{
  Ending, goes_on, crashes, hangs, Role, hosting, joined, update, host, connect, disconnect,
}

-- Without a session there is only the game.
pub data Component (G : Type 0) : Type 0 where
  idle : (game : G) → Component G
  playing : (role : Role) (st : State G) → Component G

-- A frame ends with a component, or not at all.
pub data Frame (G : Type 0) : Type 0 where
  next : (c : Component G) (sent : List Sent) → Frame G
  frame_crashes : Frame G
  frame_hangs : Frame G

-- The keys that were pressed, the lines typed, whether Startup succeeds, and the packets received.
pub record Input : Type 0 where
  pub numpad1 : Bool
  pub numpad2 : Bool
  pub numpad3 : Bool
  pub ip_line : List ℕ
  pub port_line : List ℕ
  pub started : Bool
  pub packets : List Packet

-- "127.0.0.1"
abbrev default_ip : List ℕ
default_ip = 49 ∷ 50 ∷ 55 ∷ 46 ∷ 48 ∷ 46 ∷ 48 ∷ 46 ∷ 49 ∷ []

unfoldable pub read_ip : List ℕ → List ℕ
read_ip [] = default_ip
read_ip (c ∷ cs) = c ∷ cs

unfoldable pub read_port : Numerals → List ℕ → ℕ
read_port lib [] = 60000
read_port lib (c ∷ cs) = elim (lib.stoi (c ∷ cs)) [ none ↦ 60000 | some n ↦ unsigned_short n ]

abbrev pub new_network : Network
new_network = record {
  ip = default_ip;
  port = 60000;
  slots = 4;
  active = false;
  self = no_connection;
  connections = [];
}

abbrev pub new_players : Players
new_players = record { local_net_player = none; net_players = []; hooks = []; pending = none }

abbrev pub new_session : {G : Type 0} → G → State G
new_session g = record { game = g; network = new_network; players = new_players }

abbrev pub play : {G : Type 0} → Role → Ending G → Frame G
play role (goes_on st sent) = next (playing role st) sent
play role crashes = frame_crashes
play role hangs = frame_hangs

abbrev pub after_frame : {G : Type 0} → List Sent → Frame G → Frame G
after_frame sent (next c more) = next c (sent ++ more)
after_frame sent frame_crashes = frame_crashes
after_frame sent frame_hangs = frame_hangs

abbrev pub and_then : {G : Type 0} → Frame G → (Component G → Frame G) → Frame G
and_then (next c sent) k = after_frame sent (k c)
and_then frame_crashes k = frame_crashes
and_then frame_hangs k = frame_hangs

-- Disconnect: the session is dropped once its network is no longer active.
abbrev pub drop_inactive : {G : Type 0} → Component G → Component G
drop_inactive (idle g) = idle g
drop_inactive (playing role st) = if st.network.active then playing role st else idle st.game

abbrev pub drop_after : {G : Type 0} → Frame G → Frame G
drop_after (next c sent) = next (drop_inactive c) sent
drop_after frame_crashes = frame_crashes
drop_after frame_hangs = frame_hangs

module _ {G : Type 0} (e : Engine G) (s : BitStream) (resolve : List ℕ → ℕ → SystemAddress)
    (bound : SystemAddress) (lib : Numerals) where
  unfoldable pub selection : Input → Component G → Frame G
  selection i (playing role st) =
      if i.numpad3 then play role (disconnect e s resolve bound st) else next (playing role st) []
  selection i (idle g) =
      if i.numpad1
      then play hosting
          (host e s resolve bound (read_port lib i.port_line) i.started (new_session g))
      else if i.numpad2
      then next
          (playing joined (
            connect e s resolve bound (read_ip i.ip_line) (read_port lib i.port_line) i.started
              (new_session g)))
          []
      else next (idle g) []

  unfoldable pub update_network : Input → Component G → Frame G
  update_network i (idle g) = next (idle g) []
  update_network i (playing role st) =
      drop_after (play role (update e s resolve bound role i.packets st))

  -- HandleMainGameComponentUpdate
  unfoldable pub handle_update : Input → Component G → Frame G
  handle_update i c = and_then (selection i c) (update_network i)

  -- HandleMainGameComponentShutdown: it asks the network without a test for null.
  unfoldable pub handle_shutdown : Component G → Frame G
  handle_shutdown (idle g) = frame_crashes
  handle_shutdown (playing role st) = drop_after (play role (disconnect e s resolve bound st))

  unfoldable pub frames : List Input → Component G → Frame G
  frames [] c = next c []
  frames (i ∷ is) c = and_then (handle_update i c) (frames is)
