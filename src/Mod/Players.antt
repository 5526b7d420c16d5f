-- ===== src/Mod/Players.antt =====
-- The state of class NetPlayerManager (Core/Multiplayer/Fable/NetPlayerManager), and its
-- NetPlayerManagerUtils.cpp. The pointers in `netPlayers` are never null.
use crossover.Prelude.{
  ℕ, suc, Bool, List, [], ◌∷◌, ◌++◌, map, length, Option, none, some, ◌==◌, if◌then◌else◌,
}
use crossover.Ids.{free_from}
use crossover.Wire.Bytes.{Vec3}
use crossover.Mod.Network.{Network, Sent, no_id}
use crossover.Mod.Engine.{Engine}

pub record NetPlayer : Type 0 where
  pub network_id : ℕ
  pub local_id : ℕ
  pub movement_acceleration : Vec3
  pub position : Vec3
  pub up : Vec3
  pub forward : Vec3

pub record LocalNetPlayer : Type 0 where
  pub network_id : ℕ
  pub local_id : ℕ

-- The closures that are registered with a creature under "ResolveMovementAcceleration" and
-- "ResolveFacingDirection", each with the network id: those of the local player broadcast, the
-- others apply what was received.
pub data Axis : Type 0 where
  movement facing : Axis

pub record Hook : Type 0 where
  pub creature : ℕ
  pub axis : Axis
  pub network_id : ℕ
  pub broadcasts : Bool

-- The closure that waits for the region to be loaded.
pub record Pending : Type 0 where
  pub network_id : ℕ
  pub def_global_index : ℕ
  pub position : Vec3

pub record Players : Type 0 where
  pub local_net_player : Option LocalNetPlayer
  pub net_players : List NetPlayer
  pub hooks : List Hook
  pub pending : Option Pending

-- The game, the network and the players; `players` is what NetPlayerManager holds.
pub record State (G : Type 0) : Type 0 where
  pub game : G
  pub network : Network
  pub players : Players

abbrev pub with_net_players : Players → List NetPlayer → Players
with_net_players m ps = record m { net_players = ps }

-- The new state and what was sent; `none` if a null pointer was followed.
abbrev pub Outcome : Type 0 → Type 0
Outcome G = Option (State G × List Sent)

abbrev pub local_ids_of : Option LocalNetPlayer → List ℕ
local_ids_of none = []
local_ids_of (some l) = l.local_id ∷ []

abbrev pub local_ids : Players → List ℕ
local_ids m = local_ids_of m.local_net_player ++ map (λ p. p.local_id) m.net_players

-- `none` would say that the fuel ran out.
unfoldable pub get_free_local_id : Players → Option ℕ
get_free_local_id m = free_from (suc (length (local_ids m))) 0 (local_ids m)

unfoldable pub local_id_among : ℕ → List NetPlayer → ℕ
local_id_among i [] = no_id
local_id_among i (p ∷ ps) = if p.network_id == i then p.local_id else local_id_among i ps

abbrev local_id_behind : ℕ → List NetPlayer → Option LocalNetPlayer → ℕ
local_id_behind i ps none = local_id_among i ps
local_id_behind i ps (some l) = if l.network_id == i then l.local_id else local_id_among i ps

unfoldable pub get_local_id_from_network_id : Players → ℕ → ℕ
get_local_id_from_network_id m i = local_id_behind i m.net_players m.local_net_player

unfoldable pub network_id_among : ℕ → List NetPlayer → ℕ
network_id_among l [] = no_id
network_id_among l (p ∷ ps) = if p.local_id == l then p.network_id else network_id_among l ps

abbrev network_id_behind : ℕ → List NetPlayer → Option LocalNetPlayer → ℕ
network_id_behind i ps none = network_id_among i ps
network_id_behind i ps (some l) = if l.local_id == i then l.network_id else network_id_among i ps

unfoldable pub get_network_id_from_local_id : Players → ℕ → ℕ
get_network_id_from_local_id m l = network_id_behind l m.net_players m.local_net_player

module _ {G : Type 0} (e : Engine G) where
  unfoldable pub get_creature_from_local_id : G → ℕ → Option ℕ
  get_creature_from_local_id g l = if e.get_player g l then e.controlled_creature g l else none

  unfoldable pub get_creature_from_network_id : G → Players → ℕ → Option ℕ
  get_creature_from_network_id g m i =
      get_creature_from_local_id g (get_local_id_from_network_id m i)
