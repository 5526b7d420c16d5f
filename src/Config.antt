-- ===== src/Config.antt =====
-- Server/src/Config.h: the settings of the dedicated server.
pub mod Environment
pub mod Valid
use crossover.Prelude.{ℕ, Bool, List}
use crossover.Wire.Bytes.{Vec3}

pub data SpawnMode : Type 0 where
  anchor fixed : SpawnMode

-- Ports are `unsigned short`; a text is the list of its bytes.
pub record Config : Type 0 where
  pub game_port : ℕ
  pub tunnel_port : ℕ
  pub tunnel_enabled : Bool
  pub status_port : ℕ
  pub max_players : ℕ
  pub spawn_mode : SpawnMode
  pub spawn : Vec3
  pub spawn_configured : Bool
  pub state_file : List ℕ
  pub tick_hz : ℕ
  pub verbose : Bool
