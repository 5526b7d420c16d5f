-- ===== src/Examples/ConfigExamples.antt =====
-- The settings that two environments give, with numerals read as digits.
use crossover.Prelude.{
  ℕ, ◌+◌, ◌*◌, ◌-◌, ◌^◌, true, List, [], ◌∷◌, Option, none, some, ltb, ◌≡◌, refl, arith,
  if◌then◌else◌,
}
use crossover.Config.Environment.{
  Variable, crossover_game_port, crossover_tunnel_port, crossover_max_players, Environment,
  Numerals, env_bool, env_int, read_game_port, read_tunnel_port, from_environment, first_env,
  env_or_null,
}
use crossover.Wire.Bytes.{IsWord}
use crossover.Wire.SelfTest.{network_order}
use crossover.Relay.Session.{start, new_server}
use crossover.Relay.Invariant.{ticks, stops, life}
use crossover.Relay.Started.{AtMost, from_environment-InRange}

abbrev digits : ℕ → List ℕ → ℕ
digits n [] = n
digits n (c ∷ cs) = digits (n * 10 + (c - 48)) cs

abbrev if_int : ℕ → Option ℕ
if_int n = if ltb n (2 ^ 31) then some n else none

if_int-IsWord : (m : ℕ) {n : ℕ} → if_int m ≡ some n → IsWord n
if_int-IsWord m h = ground arith

abbrev decimal : Numerals
decimal = record {
  stoi = λ t. if_int (digits 0 t);
  stoi-IsWord = λ t h. if_int-IsWord (digits 0 t) h;
  stof = λ t. none;
}

-- Both ports are 65535.
abbrev last_port : Environment
last_port crossover_game_port = some (54 ∷ 53 ∷ 53 ∷ 51 ∷ 53 ∷ [])
last_port crossover_tunnel_port = some (54 ∷ 53 ∷ 53 ∷ 51 ∷ 53 ∷ [])
last_port _ = none

-- 300 players.
abbrev crowded : Environment
crowded crossover_max_players = some (51 ∷ 48 ∷ 48 ∷ [])
crowded _ = none

tunnel_on : env_bool last_port Variable.crossover_tunnel true ≡ true
unfolding env_bool env_or_null
tunnel_on = refl

game_port_read : read_game_port decimal last_port ≡ 65535
unfolding read_game_port first_env env_or_null env_int
game_port_read = refl

tunnel_port_read : read_tunnel_port decimal last_port ≡ 65535
unfolding read_tunnel_port first_env env_or_null env_int
tunnel_port_read = refl

from_environment-InRange_example : AtMost 64 (
    life network_order
      (start true true 5 none (new_server (from_environment decimal crowded))).0
      (ticks [] true 9 9 ∷ stops true ∷ []))
from_environment-InRange_example =
    from_environment-InRange network_order decimal crowded true true 5 none
      (ticks [] true 9 9 ∷ stops true ∷ [])
