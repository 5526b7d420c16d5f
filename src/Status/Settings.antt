-- ===== src/Status/Settings.antt =====
-- Config::Describe of Server/src/Config.cpp: the line that main prints of the settings.
use crossover.Prelude.{
  ℕ, ◌≡◌, refl, Bool, false, ◌||◌, List, [], ◌∷◌, ◌++◌, ◌==◌, if◌then◌else◌, contains,
  contains-append, ◌∙◌, arith,
}
use crossover.Config.{SpawnMode, anchor, fixed, Config}
use crossover.Status.Json.{Printers, written}

-- "gamePort="
abbrev game_port_key : List ℕ
game_port_key = 103 ∷ 97 ∷ 109 ∷ 101 ∷ 80 ∷ 111 ∷ 114 ∷ 116 ∷ 61 ∷ []

-- "/udp tunnel="
abbrev tunnel_key : List ℕ
tunnel_key = 47 ∷ 117 ∷ 100 ∷ 112 ∷ 32 ∷ 116 ∷ 117 ∷ 110 ∷ 110 ∷ 101 ∷ 108 ∷ 61 ∷ []

-- "/tcp"
abbrev tcp_suffix : List ℕ
tcp_suffix = 47 ∷ 116 ∷ 99 ∷ 112 ∷ []

-- "off"
abbrev off_word : List ℕ
off_word = 111 ∷ 102 ∷ 102 ∷ []

-- " statusPort="
abbrev status_port_key : List ℕ
status_port_key = 32 ∷ 115 ∷ 116 ∷ 97 ∷ 116 ∷ 117 ∷ 115 ∷ 80 ∷ 111 ∷ 114 ∷ 116 ∷ 61 ∷ []

-- " maxPlayers="
abbrev max_key : List ℕ
max_key = 32 ∷ 109 ∷ 97 ∷ 120 ∷ 80 ∷ 108 ∷ 97 ∷ 121 ∷ 101 ∷ 114 ∷ 115 ∷ 61 ∷ []

-- " tickHz="
abbrev tick_key : List ℕ
tick_key = 32 ∷ 116 ∷ 105 ∷ 99 ∷ 107 ∷ 72 ∷ 122 ∷ 61 ∷ []

-- " spawnMode="
abbrev mode_key : List ℕ
mode_key = 32 ∷ 115 ∷ 112 ∷ 97 ∷ 119 ∷ 110 ∷ 77 ∷ 111 ∷ 100 ∷ 101 ∷ 61 ∷ []

-- "anchor"
abbrev anchor_word : List ℕ
anchor_word = 97 ∷ 110 ∷ 99 ∷ 104 ∷ 111 ∷ 114 ∷ []

-- "fixed"
abbrev fixed_word : List ℕ
fixed_word = 102 ∷ 105 ∷ 120 ∷ 101 ∷ 100 ∷ []

-- " spawn=("
abbrev spawn_key : List ℕ
spawn_key = 32 ∷ 115 ∷ 112 ∷ 97 ∷ 119 ∷ 110 ∷ 61 ∷ 40 ∷ []

-- ", "
abbrev coordinate_comma : List ℕ
coordinate_comma = 44 ∷ 32 ∷ []

-- ")"
abbrev spawn_end : List ℕ
spawn_end = 41 ∷ []

-- " [default]"
abbrev default_mark : List ℕ
default_mark = 32 ∷ 91 ∷ 100 ∷ 101 ∷ 102 ∷ 97 ∷ 117 ∷ 108 ∷ 116 ∷ 93 ∷ []

-- " stateFile="
abbrev state_file_key : List ℕ
state_file_key = 32 ∷ 115 ∷ 116 ∷ 97 ∷ 116 ∷ 101 ∷ 70 ∷ 105 ∷ 108 ∷ 101 ∷ 61 ∷ []

unfoldable pub mode_word : SpawnMode → List ℕ
mode_word anchor = anchor_word
mode_word fixed = fixed_word

unfoldable pub or_off : List ℕ → List ℕ
or_off [] = off_word
or_off (c ∷ cs) = c ∷ cs

-- What the stream gets, piece by piece.
unfoldable pub description : Printers → Config → List (List ℕ)
unfolding mode_word or_off
description pr c =
    game_port_key
    ∷ pr.show_int c.game_port
    ∷ tunnel_key
    ∷ (if c.tunnel_enabled then pr.show_int c.tunnel_port ++ tcp_suffix else off_word)
    ∷ status_port_key
    ∷ (if c.status_port == 0 then off_word else pr.show_int c.status_port)
    ∷ max_key
    ∷ pr.show_int c.max_players
    ∷ tick_key
    ∷ pr.show_int c.tick_hz
    ∷ mode_key
    ∷ mode_word c.spawn_mode
    ∷ spawn_key
    ∷ pr.show_float c.spawn.x
    ∷ coordinate_comma
    ∷ pr.show_float c.spawn.y
    ∷ coordinate_comma
    ∷ pr.show_float c.spawn.z
    ∷ spawn_end
    ∷ (if c.spawn_configured then [] else default_mark)
    ∷ state_file_key
    ∷ or_off c.state_file
    ∷ []

unfoldable pub describe : Printers → Config → List ℕ
unfolding description
describe pr c = written (description pr c)

-- Some part holds the byte.
abbrev any_contains : List (List ℕ) → ℕ → Bool
any_contains [] a = false
any_contains (p ∷ ps) a = contains p a || any_contains ps a

contains-written : (ps : List (List ℕ)) (a : ℕ) → contains (written ps) a ≡ any_contains ps a
contains-written [] a = refl
contains-written (p ∷ ps) a =
    ground (arith, contains-append p (written ps) a, contains-written ps a)

line_feeds_or_off : (t : List ℕ) → contains (or_off t) 10 ≡ contains t 10
unfolding or_off
line_feeds_or_off [] = refl
line_feeds_or_off (c ∷ cs) = refl

line_feeds_mode : (m : SpawnMode) → contains (mode_word m) 10 ≡ false
unfolding mode_word
line_feeds_mode anchor = refl
line_feeds_mode fixed = refl

-- The settings are one line of the log, unless the name of the state file has a line feed.
pub contains-describe :
    (pr : Printers) (c : Config)
    → ((n : ℕ) → contains (pr.show_int n) 10 ≡ false)
    → ((n : ℕ) → contains (pr.show_float n) 10 ≡ false)
    → contains (describe pr c) 10 ≡ contains c.state_file 10
unfolding describe description
contains-describe pr c i f =
    contains-written (description pr c) 10
    ∙ ground (
      arith,
      i c.game_port,
      i c.tunnel_port,
      i c.status_port,
      i c.max_players,
      i c.tick_hz,
      f c.spawn.x,
      f c.spawn.y,
      f c.spawn.z,
      line_feeds_mode c.spawn_mode,
      line_feeds_or_off c.state_file,
      contains-append (pr.show_int c.tunnel_port) tcp_suffix 10,
    )
