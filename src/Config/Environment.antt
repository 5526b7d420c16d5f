-- ===== src/Config/Environment.antt =====
-- FromEnvironment of Server/src/Config.cpp. A text is the list of its bytes, an `int` its pattern of
-- 32 bits.
use crossover.Prelude.{
  ℕ, ◌+◌, ◌%◌, ◌^◌, Bool, true, false, not, List, [], ◌∷◌, Option, none, some, ltb, ◌==◌, ◌&&◌,
  ◌||◌, ◌≡◌, if◌then◌else◌,
}
use crossover.Wire.Bytes.{IsWord}
use crossover.Config.{SpawnMode, anchor, fixed, Config}

-- The names of the variables that it reads.
pub data Variable : Type 0 where
  crossover_game_port crossover_tunnel_port railway_tcp_application_port : Variable
  crossover_tunnel crossover_status_port port crossover_max_players : Variable
  crossover_tick_hz crossover_spawn_mode crossover_spawn_x crossover_spawn_y : Variable
  crossover_spawn_z crossover_state_file crossover_verbose : Variable

-- std::getenv
abbrev pub Environment : Type 0
Environment = Variable → Option (List ℕ)

-- std::stoi and std::stof; `none` stands for an exception. A float is its pattern.
pub record Numerals : Type 0 where
  pub stoi : List ℕ → Option ℕ
  pub stoi-IsWord : (t : List ℕ) {n : ℕ} → stoi t ≡ some n → IsWord n
  pub stof : List ℕ → Option ℕ

unfoldable pub text_eq : List ℕ → List ℕ → Bool
text_eq [] [] = true
text_eq [] (_ ∷ _) = false
text_eq (_ ∷ _) [] = false
text_eq (x ∷ xs) (y ∷ ys) = x == y && text_eq xs ys

unfoldable pub env_or_null : Environment → Variable → Option (List ℕ)
env_or_null env n = elim (env n) [ none ↦ none | some [] ↦ none | some (c ∷ cs) ↦ some (c ∷ cs) ]

unfoldable pub first_env : Environment → List Variable → Option (List ℕ)
first_env env [] = none
first_env env (n ∷ ns) = elim (env_or_null env n) [ none ↦ first_env env ns | some v ↦ some v ]

abbrev pub or_else {ℓ} : {A : Type ℓ} → A → Option A → A
or_else d none = d
or_else d (some a) = a

abbrev pub parsed : (List ℕ → Option ℕ) → Option (List ℕ) → Option ℕ
parsed read none = none
parsed read (some v) = read v

unfoldable pub env_int : Numerals → Environment → List Variable → ℕ → ℕ
env_int lib env names fallback = or_else fallback (parsed lib.stoi (first_env env names))

-- What EnvFloat writes through `out`; `none` if it returns false.
unfoldable pub env_float : Numerals → Environment → Variable → Option ℕ
env_float lib env name = parsed lib.stof (env_or_null env name)

abbrev is_yes : List ℕ → Bool
is_yes s =
    text_eq s (49 ∷ [])  -- 1
    || (text_eq s (116 ∷ 114 ∷ 117 ∷ 101 ∷ [])  -- true
        || (text_eq s (84 ∷ 82 ∷ 85 ∷ 69 ∷ [])  -- TRUE
            || (text_eq s (121 ∷ 101 ∷ 115 ∷ []) || text_eq s (111 ∷ 110 ∷ []))))  -- yes, on

abbrev yes_or : Bool → Option (List ℕ) → Bool
yes_or fallback none = fallback
yes_or fallback (some v) = is_yes v

unfoldable pub env_bool : Environment → Variable → Bool → Bool
env_bool env name fallback = yes_or fallback (env_or_null env name)

-- `a < b` of two ints.
unfoldable pub int_lt : ℕ → ℕ → Bool
int_lt a b = ltb ((a + 2 ^ 31) % 2 ^ 32) ((b + 2 ^ 31) % 2 ^ 32)

-- `if (n < low) n = low; if (n > high) n = high;`
unfoldable pub clamp : ℕ → ℕ → ℕ → ℕ
clamp low high n =
    let n' : ℕ = if int_lt n low then low else n in if int_lt high n' then high else n'

-- static_cast<unsigned short>
abbrev pub unsigned_short : ℕ → ℕ
unsigned_short n = n % 2 ^ 16

-- The tunnel's port, moved off the game's if it is the same.
unfoldable pub tunnel_port_of : Bool → ℕ → ℕ → ℕ
tunnel_port_of enabled game_port tunnel_port =
    if enabled && tunnel_port == game_port then unsigned_short (game_port + 1) else tunnel_port

abbrev fixed_text : List ℕ
fixed_text = 102 ∷ 105 ∷ 120 ∷ 101 ∷ 100 ∷ []

-- "/data/crossover-spawn.txt"
abbrev default_state_file : List ℕ
default_state_file =
    47 ∷ 100 ∷ 97 ∷ 116 ∷ 97 ∷ 47 ∷ 99 ∷ 114 ∷ 111 ∷ 115 ∷ 115 ∷ 111 ∷ 118 ∷ 101 ∷ 114 ∷ 45 ∷ 115
    ∷ 112 ∷ 97 ∷ 119 ∷ 110 ∷ 46 ∷ 116 ∷ 120 ∷ 116 ∷ []

abbrev spawn_mode_of : Option (List ℕ) → SpawnMode
spawn_mode_of none = anchor
spawn_mode_of (some mode) = if text_eq mode fixed_text then fixed else anchor

abbrev is_some {ℓ} : {A : Type ℓ} → Option A → Bool
is_some none = false
is_some (some _) = true

-- tunnelEnabled, of the port as it was read.
unfoldable pub tunnel_enabled_of : Environment → ℕ → Bool
tunnel_enabled_of env tunnel_port = env_bool env crossover_tunnel true && not (tunnel_port == 0)

module _ (lib : Numerals) (env : Environment) where
  unfoldable pub read_game_port : ℕ
  read_game_port = unsigned_short (env_int lib env (crossover_game_port ∷ []) 60000)

  unfoldable pub read_tunnel_port : ℕ
  read_tunnel_port =
      unsigned_short
        (env_int lib env (crossover_tunnel_port ∷ railway_tcp_application_port ∷ []) 60001)

  abbrev spawn_x : Option ℕ
  spawn_x = env_float lib env crossover_spawn_x

  abbrev spawn_y : Option ℕ
  spawn_y = env_float lib env crossover_spawn_y

  abbrev spawn_z : Option ℕ
  spawn_z = env_float lib env crossover_spawn_z

  unfoldable pub from_environment : Config
  from_environment = record {
    game_port = read_game_port;
    tunnel_port =
        tunnel_port_of (tunnel_enabled_of env read_tunnel_port) read_game_port read_tunnel_port;
    tunnel_enabled = tunnel_enabled_of env read_tunnel_port;
    status_port = unsigned_short (env_int lib env (crossover_status_port ∷ port ∷ []) 8080);
    max_players = clamp 1 64 (env_int lib env (crossover_max_players ∷ []) 8);
    spawn_mode = spawn_mode_of (env_or_null env crossover_spawn_mode);
    spawn = record { x = or_else 0 spawn_x; y = or_else 0 spawn_y; z = or_else 0 spawn_z };
    spawn_configured = is_some spawn_x || (is_some spawn_y || is_some spawn_z);
    state_file = or_else default_state_file (env_or_null env crossover_state_file);
    tick_hz = clamp 10 240 (env_int lib env (crossover_tick_hz ∷ []) 60);
    verbose = env_bool env crossover_verbose false;
  }
