-- ===== src/Relay/Lookup.antt =====
-- The searches through `players_` in Server/src/RelayServer.cpp.
use crossover.Prelude.{
  ℕ, suc, not, List, [], ◌∷◌, map, length, Option, none, some, ltb, ◌==◌, if◌then◌else◌, ◌&&◌,
}
use crossover.Ids.{free_from}
use crossover.Config.{SpawnMode, anchor, fixed}
use crossover.Wire.Bytes.{Vec3}
use crossover.Relay.State.{Player, Server}

abbrev pub ids : List Player → List ℕ
ids = map λ p. p.network_id

abbrev pub addresses : List Player → List ℕ
addresses = map λ p. p.address

unfoldable pub find_by_address : ℕ → List Player → Option Player
find_by_address a [] = none
find_by_address a (p ∷ ps) = if p.address == a then some p else find_by_address a ps

unfoldable pub find_by_network_id : ℕ → List Player → Option Player
find_by_network_id i [] = none
find_by_network_id i (p ∷ ps) = if p.network_id == i then some p else find_by_network_id i ps

-- A write through the pointer that FindByAddress returned: to the first player with the address.
unfoldable pub replace_by_address : ℕ → Player → List Player → List Player
replace_by_address a q [] = []
replace_by_address a q (p ∷ ps) = if p.address == a then q ∷ ps else p ∷ replace_by_address a q ps

abbrev pub first_client_network_id : ℕ
first_client_network_id = 1

-- `none` would say that the fuel ran out.
unfoldable pub allocate_network_id : List Player → Option ℕ
allocate_network_id ps = free_from (suc (length (ids ps))) first_client_network_id (ids ps)

-- `best` in the loop of AnchorPlayer, after one more player.
unfoldable pub better : Option Player → Player → Option Player
better none p = if p.spawned then some p else none
better (some b) p = if p.spawned && ltb p.network_id b.network_id then some p else some b

unfoldable pub anchor_from : Option Player → List Player → Option Player
anchor_from best [] = best
anchor_from best (p ∷ ps) = anchor_from (better best p) ps

unfoldable pub anchor_player : List Player → Option Player
unfolding anchor_from better
anchor_player ps = anchor_from none ps

-- Where the spawn mode is `anchor`: the anchor, then the remembered anchor unless a spawn point is
-- configured, then the configured point.
spawn_at_anchor : Server → Option Player → Vec3
spawn_at_anchor srv (some a) = a.position
spawn_at_anchor srv none =
    if srv.persisted_anchor_known && not srv.config.spawn_configured
    then srv.persisted_anchor
    else srv.config.spawn

spawn_in_mode : Server → SpawnMode → Vec3
unfolding spawn_at_anchor
spawn_in_mode srv anchor = spawn_at_anchor srv (anchor_player srv.players)
spawn_in_mode srv fixed = srv.config.spawn

unfoldable pub spawn_position_for : Server → Vec3
unfolding spawn_in_mode
spawn_position_for srv = spawn_in_mode srv srv.config.spawn_mode
