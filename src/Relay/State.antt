-- ===== src/Relay/State.antt =====
-- Server/src/RelayServer.h: the players, the server's state, and what it asks of the network.
use crossover.Prelude.{ℕ, Bool, List, ◌∷◌}
use crossover.Config.{Config}
use crossover.Wire.Bytes.{Vec3, BitStream}
use crossover.Wire.Messages.{Message, message_id, write_body}

-- A SystemAddress and a RakNetGUID are only compared and passed on: numbers stand for them. Times
-- are milliseconds of the steady clock.
pub record Player : Type 0 where
  pub address : ℕ
  pub guid : ℕ
  pub network_id : ℕ
  pub spawned : Bool
  pub def_global_index : ℕ
  pub position : Vec3
  pub up : Vec3
  pub forward : Vec3
  pub connected_at_ms : ℕ
  pub last_packet_ms : ℕ
  pub packets_in : ℕ
  pub rate_window_start_ms : ℕ
  pub rate_window_count : ℕ
  pub rate_limited : Bool

pub record Server : Type 0 where
  pub config : Config
  pub running : Bool  -- peer_ is not null
  pub players : List Player
  pub started_at_ms : ℕ
  pub last_persist_ms : ℕ
  pub persisted_anchor : Vec3
  pub persisted_anchor_known : Bool

-- A packet that the peer hands over: its first byte, and the bytes behind it.
pub record Packet : Type 0 where
  pub system_address : ℕ
  pub guid : ℕ
  pub id : ℕ
  pub body : List ℕ

-- A packet with what NowMs returns before it is dispatched, and in its handler.
pub record Arrival : Type 0 where
  pub packet : Packet
  pub at_ms : ℕ
  pub handled_at_ms : ℕ

pub data Reliability : Type 0 where
  reliable_ordered unreliable_sequenced : Reliability

-- Every send is HIGH_PRIORITY, on channel 0 and to one address. `write_state_file` truncates the
-- file and writes the three coordinates.
pub data Effect : Type 0 where
  send : (address : ℕ) (payload : List ℕ) (reliability : Reliability) → Effect
  close_connection : (address : ℕ) → Effect
  write_state_file : (anchor : Vec3) → Effect

-- The bytes of a message, its id first.
abbrev pub payload : BitStream → Message → List ℕ
payload s m = message_id m ∷ write_body s m
