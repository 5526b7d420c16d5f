-- ===== src/Config/Valid.antt =====
-- What every configuration that FromEnvironment of Server/src/Config.cpp reads is like.
use crossover.Prelude.{
  ℕ, ◌^◌, ◌≤◌, ◌<◌, Bool, true, false, List, [], ◌∷◌, Option, none, some, ◌==◌, ◌&&◌, ◌≡◌, arith,
  inl, inr, Option-cases,
}
use crossover.Wire.Bytes.{IsWord}
use crossover.Config.{Config}
use crossover.Config.Environment.{
  Variable, crossover_tunnel, crossover_max_players, crossover_tick_hz, Environment, Numerals,
  first_env, env_int, env_bool, int_lt, clamp, tunnel_port_of, tunnel_enabled_of, read_game_port,
  read_tunnel_port, from_environment, or_else, parsed,
}

parsed-IsWord :
    (lib : Numerals) (d : ℕ) (o : Option (List ℕ))
    → IsWord d
    → IsWord (or_else d (parsed lib.stoi o))
parsed-IsWord lib d none h = h
parsed-IsWord lib d (some v) h = elim (Option-cases (lib.stoi v)) [
  | inl e ↦ rw e h
  | inr (n, e) ↦ rw e (lib.stoi-IsWord v e)
]

env_int-IsWord :
    (lib : Numerals) (env : Environment) (names : List Variable) (d : ℕ)
    → IsWord d
    → IsWord (env_int lib env names d)
unfolding env_int
env_int-IsWord lib env names d h = parsed-IsWord lib d (first_env env names) h

abbrev IsPort : ℕ → Type 0
IsPort n = n < 2 ^ 16

clamp_lem :
    (low high n : ℕ)
    → low ≤ high
    → high < 2 ^ 31
    → IsWord n
    → (low ≤ clamp low high n) × (clamp low high n ≤ high)
unfolding clamp int_lt
clamp_lem low high n le h hn = ground arith

tunnel_port_of_lem :
    (enabled : Bool) (g t : ℕ)
    → IsPort g
    → IsPort t
    → IsPort (tunnel_port_of enabled g t) × ((enabled && tunnel_port_of enabled g t == g) ≡ false)
unfolding tunnel_port_of
tunnel_port_of_lem enabled g t hg ht = ground arith

-- The settings that the server and the tunnel rely on. Floats and texts are not restricted.
pub record IsValid (c : Config) : Type 0 where
  pub some_players : 1 ≤ c.max_players
  pub few_players : c.max_players ≤ 64
  pub some_ticks : 10 ≤ c.tick_hz
  pub few_ticks : c.tick_hz ≤ 240
  pub game : IsPort c.game_port
  pub tunnel : IsPort c.tunnel_port
  pub status : IsPort c.status_port
  pub apart : (c.tunnel_enabled && c.tunnel_port == c.game_port) ≡ false

-- Whatever the environment holds, the settings read from it are in range: 1 to 64 players, 10 to
-- 240 ticks a second, ports of 16 bits, and a tunnel that is on has another port than the game.
pub from_environment-IsValid :
    (lib : Numerals) (env : Environment) → IsValid (from_environment lib env)
unfolding from_environment read_game_port read_tunnel_port
from_environment-IsValid lib env =
    let ports =
      tunnel_port_of_lem (tunnel_enabled_of env (read_tunnel_port lib env)) (read_game_port lib env)
        (read_tunnel_port lib env) (omega arith) (omega arith) in
    let players =
      clamp_lem 1 64 (env_int lib env (crossover_max_players ∷ []) 8) (omega arith) (omega arith)
        (env_int-IsWord lib env (crossover_max_players ∷ []) 8 (omega arith)) in
    let ticks =
      clamp_lem 10 240 (env_int lib env (crossover_tick_hz ∷ []) 60) (omega arith) (omega arith)
        (env_int-IsWord lib env (crossover_tick_hz ∷ []) 60 (omega arith)) in
    record {
      some_players = players.0;
      few_players = players.1;
      some_ticks = ticks.0;
      few_ticks = ticks.1;
      game = omega arith;
      tunnel = ports.0;
      status = omega arith;
      apart = ports.1;
    }

-- If game and tunnel are both given port 65535, the tunnel stays on and is moved to port 0,
-- although port 0 is meant to switch it off.
pub tunnel_on_port_zero :
    (lib : Numerals) (env : Environment)
    → env_bool env crossover_tunnel true ≡ true
    → read_game_port lib env ≡ 65535
    → read_tunnel_port lib env ≡ 65535
    → ((from_environment lib env).tunnel_enabled ≡ true)
      × ((from_environment lib env).tunnel_port ≡ 0)
unfolding from_environment tunnel_port_of tunnel_enabled_of
tunnel_on_port_zero lib env on g t = ground arith
