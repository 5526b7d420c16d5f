-- ===== src/Mod/Engine.antt =====
-- What Core/Multiplayer/Fable asks of the running game, through the bindings in Core/SDK. `G` is the
-- state of the game, a creature is a number, and floats are their patterns.
use crossover.Prelude.{ℕ, Bool, List, Option}
use crossover.Wire.Bytes.{Vec3}

pub record Engine (G : Type 0) : Type 0 where
  pub get_player : G → ℕ → Bool  -- GetPlayer of a local id is not null
  pub controlled_creature : G → ℕ → Option ℕ  -- GetPControlledCreature of that player
  pub create_player : G → ℕ → G
  pub create_creature : G → ℕ → Vec3 → ℕ → G × Option ℕ  -- of a definition, place and local id
  pub set_controlled_creature : G → ℕ → Option ℕ → G
  pub uninitialise : G → ℕ → G  -- UninitCharacter, then Uninitialise
  pub get_pos : G → ℕ → Vec3
  pub movement_acceleration : G → ℕ → Vec3
  pub get_up : G → ℕ → Vec3
  pub get_forward : G → ℕ → Vec3
  pub def_global_index : G → ℕ → ℕ  -- by the name of the creature's definition
  pub set_position : G → ℕ → Vec3 → G
  pub set_movement_acceleration : G → ℕ → Vec3 → G
  pub set_rh_set : G → ℕ → Vec3 → Vec3 → G
  pub set_as_loading_region : G → Vec3 → ℕ → G  -- facing as the creature does
  pub is_loading_region : G → Bool
  pub drifted : Vec3 → Vec3 → Bool  -- the float comparison driftSq > 1
  -- What `int defGlobalIndex;` holds before it is read, by the packet's body and the rounds left.
  pub unset : List ℕ → ℕ → ℕ
