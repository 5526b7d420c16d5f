-- ===== src/Status/Json.antt =====
-- JsonEscape and BuildJson of Server/src/main.cpp. How the stream prints a whole number and a float of
-- two decimals, and SLikeNet an address, are parameters.
use crossover.Prelude.{
  ℕ, ◌/◌, Bool, true, false, List, [], ◌∷◌, ◌++◌, Option, none, some, ltb, ◌==◌, ◌||◌,
  if◌then◌else◌,
}
use crossover.Wire.Bytes.{Vec3}
use crossover.Relay.Session.{SnapshotEntry, Snapshot}
use crossover.Status.Words.{
  status_key, running_word, stopped_word, uptime_key, players_key, max_players_key, transport_key,
  tunnel_word, udp_word, quote, connections_key, rendezvous_key, y_key, z_key, close_brace,
  no_rendezvous, roster_key, comma, network_id_key, address_key, in_world_key, true_word,
  false_word, connected_key, position_key, close_braces, end_json,
}

-- A `"` or `\` is escaped, a line feed is written `\n`, and the other control bytes are dropped.
unfoldable pub json_escape : List ℕ → List ℕ
json_escape [] = []
json_escape (c ∷ cs) =
    let rest = json_escape cs in
    if c == 34 || c == 92
    then 92 ∷ c ∷ rest
    else if c == 10
    then 92 ∷ 110 ∷ rest
    else if ltb c 32
    then rest
    else c ∷ rest

-- What the stream holds after several writes.
abbrev pub written : List (List ℕ) → List ℕ
written [] = []
written (p ∷ ps) = p ++ written ps

pub record Printers : Type 0 where
  pub show_int : ℕ → List ℕ
  pub show_float : ℕ → List ℕ
  pub show_address : ℕ → List ℕ

module _ (pr : Printers) where
  -- The coordinates behind the key of the first, and what closes them.
  abbrev pub coordinates : Vec3 → List ℕ → List ℕ
  coordinates v end =
      written (pr.show_float v.x ∷ y_key ∷ pr.show_float v.y ∷ z_key ∷ pr.show_float v.z ∷ end ∷ [])

  unfoldable pub json_entry : SnapshotEntry → List ℕ
  json_entry p = written (
      network_id_key
      ∷ pr.show_int p.network_id
      ∷ address_key
      ∷ json_escape (pr.show_address p.address)
      ∷ in_world_key
      ∷ (if p.spawned then true_word else false_word)
      ∷ connected_key
      ∷ pr.show_int (p.connected_for_ms / 1000)
      ∷ position_key
      ∷ coordinates p.position close_braces
      ∷ [])

  -- The entries behind the first, each behind a comma.
  unfoldable pub more_entries : List SnapshotEntry → List ℕ
  more_entries [] = []
  more_entries (p ∷ ps) = comma ++ (json_entry p ++ more_entries ps)

  unfoldable pub json_roster : List SnapshotEntry → List ℕ
  json_roster [] = []
  json_roster (p ∷ ps) = json_entry p ++ more_entries ps

  abbrev pub json_anchor : Option Vec3 → List ℕ
  json_anchor none = no_rendezvous
  json_anchor (some v) = rendezvous_key ++ coordinates v close_brace

  abbrev pub json_connections : Bool → ℕ → List ℕ
  json_connections true n = connections_key ++ pr.show_int n
  json_connections false n = []

  unfoldable pub build_json : Snapshot → ℕ → Bool → List ℕ
  build_json s tunnel_connections tunnel_enabled = written (
      status_key
      ∷ (if s.running then running_word else stopped_word)
      ∷ uptime_key
      ∷ pr.show_int (s.uptime_ms / 1000)
      ∷ players_key
      ∷ pr.show_int s.player_count
      ∷ max_players_key
      ∷ pr.show_int s.max_players
      ∷ transport_key
      ∷ (if tunnel_enabled then tunnel_word else udp_word)
      ∷ quote
      ∷ json_connections tunnel_enabled tunnel_connections
      ∷ json_anchor s.anchor
      ∷ roster_key
      ∷ json_roster s.players
      ∷ end_json
      ∷ [])
