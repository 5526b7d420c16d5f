-- ===== src/Relay/Sending.antt =====
-- SendTo, RelayExcept and SendRoster of Server/src/RelayServer.cpp.
use crossover.Prelude.{ℕ, not, List, [], ◌∷◌, map, ◌==◌, ◌||◌, if◌then◌else◌}
use crossover.Wire.Bytes.{BitStream}
use crossover.Wire.Messages.{Entry, create_net_players}
use crossover.Relay.State.{Player, Reliability, reliable_ordered, Effect, send, payload}

unfoldable pub relay_except : ℕ → List ℕ → Reliability → List Player → List Effect
relay_except except bytes r [] = []
relay_except except bytes r (p ∷ ps) =
    if p.network_id == except || not p.spawned
    then relay_except except bytes r ps
    else send p.address bytes r ∷ relay_except except bytes r ps

-- The loop that collects `others`.
unfoldable pub others : ℕ → List Player → List Player
others i [] = []
others i (p ∷ ps) = if p.network_id == i || not p.spawned then others i ps else p ∷ others i ps

abbrev pub entry_of : Player → Entry
entry_of p = record {
  network_id = p.network_id;
  def_global_index = p.def_global_index;
  position = p.position;
}

unfoldable pub send_entries : BitStream → ℕ → List Player → List Effect
send_entries s to [] = []
send_entries s to (p ∷ ps) =
    send to (payload s (create_net_players (map entry_of (p ∷ ps)))) reliable_ordered ∷ []

unfoldable pub send_roster : BitStream → Player → List Player → List Effect
unfolding send_entries
send_roster s to ps = send_entries s to.address (others to.network_id ps)
