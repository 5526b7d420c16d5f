-- ===== src/Status/Words.antt =====
-- The texts that BuildJson of Server/src/main.cpp writes, byte by byte.
use crossover.Prelude.{ℕ, List, [], ◌∷◌}

-- {"status":"
abbrev pub status_key : List ℕ
status_key = 123 ∷ 34 ∷ 115 ∷ 116 ∷ 97 ∷ 116 ∷ 117 ∷ 115 ∷ 34 ∷ 58 ∷ 34 ∷ []

-- running
abbrev pub running_word : List ℕ
running_word = 114 ∷ 117 ∷ 110 ∷ 110 ∷ 105 ∷ 110 ∷ 103 ∷ []

-- stopped
abbrev pub stopped_word : List ℕ
stopped_word = 115 ∷ 116 ∷ 111 ∷ 112 ∷ 112 ∷ 101 ∷ 100 ∷ []

-- ","uptimeSeconds":
abbrev pub uptime_key : List ℕ
uptime_key =
    34 ∷ 44 ∷ 34 ∷ 117 ∷ 112 ∷ 116 ∷ 105 ∷ 109 ∷ 101 ∷ 83 ∷ 101 ∷ 99 ∷ 111 ∷ 110 ∷ 100 ∷ 115 ∷ 34
    ∷ 58 ∷ []

-- ,"players":
abbrev pub players_key : List ℕ
players_key = 44 ∷ 34 ∷ 112 ∷ 108 ∷ 97 ∷ 121 ∷ 101 ∷ 114 ∷ 115 ∷ 34 ∷ 58 ∷ []

-- ,"maxPlayers":
abbrev pub max_players_key : List ℕ
max_players_key = 44 ∷ 34 ∷ 109 ∷ 97 ∷ 120 ∷ 80 ∷ 108 ∷ 97 ∷ 121 ∷ 101 ∷ 114 ∷ 115 ∷ 34 ∷ 58 ∷ []

-- ,"transport":"
abbrev pub transport_key : List ℕ
transport_key = 44 ∷ 34 ∷ 116 ∷ 114 ∷ 97 ∷ 110 ∷ 115 ∷ 112 ∷ 111 ∷ 114 ∷ 116 ∷ 34 ∷ 58 ∷ 34 ∷ []

-- tcp-tunnel
abbrev pub tunnel_word : List ℕ
tunnel_word = 116 ∷ 99 ∷ 112 ∷ 45 ∷ 116 ∷ 117 ∷ 110 ∷ 110 ∷ 101 ∷ 108 ∷ []

-- direct-udp
abbrev pub udp_word : List ℕ
udp_word = 100 ∷ 105 ∷ 114 ∷ 101 ∷ 99 ∷ 116 ∷ 45 ∷ 117 ∷ 100 ∷ 112 ∷ []

-- "
abbrev pub quote : List ℕ
quote = 34 ∷ []

-- ,"tunnelConnections":
abbrev pub connections_key : List ℕ
connections_key =
    44 ∷ 34 ∷ 116 ∷ 117 ∷ 110 ∷ 110 ∷ 101 ∷ 108 ∷ 67 ∷ 111 ∷ 110 ∷ 110 ∷ 101 ∷ 99 ∷ 116 ∷ 105 ∷ 111
    ∷ 110 ∷ 115 ∷ 34 ∷ 58 ∷ []

-- ,"rendezvous":{"x":
abbrev pub rendezvous_key : List ℕ
rendezvous_key =
    44 ∷ 34 ∷ 114 ∷ 101 ∷ 110 ∷ 100 ∷ 101 ∷ 122 ∷ 118 ∷ 111 ∷ 117 ∷ 115 ∷ 34 ∷ 58 ∷ 123 ∷ 34 ∷ 120
    ∷ 34 ∷ 58 ∷ []

-- ,"y":
abbrev pub y_key : List ℕ
y_key = 44 ∷ 34 ∷ 121 ∷ 34 ∷ 58 ∷ []

-- ,"z":
abbrev pub z_key : List ℕ
z_key = 44 ∷ 34 ∷ 122 ∷ 34 ∷ 58 ∷ []

-- }
abbrev pub close_brace : List ℕ
close_brace = 125 ∷ []

-- ,"rendezvous":null
abbrev pub no_rendezvous : List ℕ
no_rendezvous =
    44 ∷ 34 ∷ 114 ∷ 101 ∷ 110 ∷ 100 ∷ 101 ∷ 122 ∷ 118 ∷ 111 ∷ 117 ∷ 115 ∷ 34 ∷ 58 ∷ 110 ∷ 117 ∷ 108
    ∷ 108 ∷ []

-- ,"roster":[
abbrev pub roster_key : List ℕ
roster_key = 44 ∷ 34 ∷ 114 ∷ 111 ∷ 115 ∷ 116 ∷ 101 ∷ 114 ∷ 34 ∷ 58 ∷ 91 ∷ []

-- ,
abbrev pub comma : List ℕ
comma = 44 ∷ []

-- {"networkId":
abbrev pub network_id_key : List ℕ
network_id_key = 123 ∷ 34 ∷ 110 ∷ 101 ∷ 116 ∷ 119 ∷ 111 ∷ 114 ∷ 107 ∷ 73 ∷ 100 ∷ 34 ∷ 58 ∷ []

-- ,"address":"
abbrev pub address_key : List ℕ
address_key = 44 ∷ 34 ∷ 97 ∷ 100 ∷ 100 ∷ 114 ∷ 101 ∷ 115 ∷ 115 ∷ 34 ∷ 58 ∷ 34 ∷ []

-- ","inWorld":
abbrev pub in_world_key : List ℕ
in_world_key = 34 ∷ 44 ∷ 34 ∷ 105 ∷ 110 ∷ 87 ∷ 111 ∷ 114 ∷ 108 ∷ 100 ∷ 34 ∷ 58 ∷ []

-- true
abbrev pub true_word : List ℕ
true_word = 116 ∷ 114 ∷ 117 ∷ 101 ∷ []

-- false
abbrev pub false_word : List ℕ
false_word = 102 ∷ 97 ∷ 108 ∷ 115 ∷ 101 ∷ []

-- ,"connectedForSeconds":
abbrev pub connected_key : List ℕ
connected_key =
    44 ∷ 34 ∷ 99 ∷ 111 ∷ 110 ∷ 110 ∷ 101 ∷ 99 ∷ 116 ∷ 101 ∷ 100 ∷ 70 ∷ 111 ∷ 114 ∷ 83 ∷ 101 ∷ 99
    ∷ 111 ∷ 110 ∷ 100 ∷ 115 ∷ 34 ∷ 58 ∷ []

-- ,"position":{"x":
abbrev pub position_key : List ℕ
position_key =
    44 ∷ 34 ∷ 112 ∷ 111 ∷ 115 ∷ 105 ∷ 116 ∷ 105 ∷ 111 ∷ 110 ∷ 34 ∷ 58 ∷ 123 ∷ 34 ∷ 120 ∷ 34 ∷ 58
    ∷ []

-- }}
abbrev pub close_braces : List ℕ
close_braces = 125 ∷ 125 ∷ []

-- ]}
abbrev pub end_json : List ℕ
end_json = 93 ∷ 125 ∷ []
