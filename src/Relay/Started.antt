-- ===== src/Relay/Started.antt =====
-- A server of Server/src/RelayServer.cpp under the settings that Server/src/Config.cpp reads: the
-- settings stay as they are for its whole life.
use crossover.Prelude.{
  ℕ, ◌≤◌, Bool, not, List, [], ◌∷◌, length, Option, ◌≡◌, refl, ◌∙◌, arith, if_cases, All, All-imply,
}
use crossover.Config.{Config}
use crossover.Config.Environment.{Environment, Numerals, from_environment}
use crossover.Config.Valid.{from_environment-IsValid}
use crossover.Wire.Bytes.{Vec3, BitStream}
use crossover.Relay.State.{Server, Arrival, Effect}
use crossover.Relay.Lookup.{ids}
use crossover.Relay.Session.{
  receive, receive_all, persist_anchor, persist_if_due, tick, stop, start, new_server,
  load_persisted_anchor,
}
use crossover.Relay.Invariant.{
  InRange, Inv, receive-Keeps, receive-Inv, tick-Inv, stop-Inv, Call, ticks, stops, call, life,
  life-start-Inv, start-Inv,
}

persist_if_due-config :
    (can_open : Bool) (checked kept : ℕ) (srv : Server)
    → (persist_if_due can_open checked kept srv).0.config ≡ srv.config
unfolding persist_if_due persist_anchor
persist_if_due-config can_open checked kept srv = ground arith

start-config :
    (has_peer started : Bool) (now : ℕ) (file : Option Vec3) (c : Config)
    → (start has_peer started now file (new_server c)).0.config ≡ c
unfolding start load_persisted_anchor
start-config has_peer started now file c = ground arith

-- No more than `n` players, with ids 1 to `n`.
abbrev pub AtMost : ℕ → Server → Type 0
AtMost n srv = (length srv.players ≤ n) × All (InRange n) (ids srv.players)

AtMost-le : (srv : Server) (n : ℕ) → srv.config.max_players ≤ n → Inv srv → AtMost n srv
AtMost-le srv n h v = (
  omega (arith, v.few),
  All-imply (InRange srv.config.max_players) (InRange n) (ids srv.players)
      (λ i (p : InRange srv.config.max_players i). (p.0, omega (arith, p.1))) v.in_range,
)

module _ (s : BitStream) where
  receive_all-config :
      (srv : Server) (l : List Arrival) → Inv srv → (receive_all s srv l).0.config ≡ srv.config
  unfolding receive_all
  receive_all-config srv [] v = refl
  receive_all-config srv (a ∷ l) v =
      receive_all-config (receive s srv a).0 l (receive-Inv s srv a v) ∙ (receive-Keeps s srv a v).0

  tick-config :
      (srv : Server) (l : List Arrival) (can_open : Bool) (checked kept : ℕ)
      → Inv srv
      → (tick s srv l can_open checked kept).0.config ≡ srv.config
  unfolding tick
  tick-config srv l can_open checked kept v =
      if_cases {A = Server × List Effect} (λ r. r.0.config ≡ srv.config) (not srv.running)
        (λ _. refl)
        (λ _.
          persist_if_due-config can_open checked kept (receive_all s srv l).0
          ∙ receive_all-config srv l v)

  stop-config : (can_open : Bool) (srv : Server) → (stop s can_open srv).0.config ≡ srv.config
  unfolding stop persist_anchor
  stop-config can_open srv = ground arith

  life-config : (srv : Server) (cs : List Call) → Inv srv → (life s srv cs).config ≡ srv.config
  unfolding life call
  life-config srv [] v = refl
  life-config srv (ticks l can_open checked kept ∷ cs) v =
      life-config (tick s srv l can_open checked kept).0 cs
        (tick-Inv s srv l can_open checked kept v)
      ∙ tick-config srv l can_open checked kept v
  life-config srv (stops can_open ∷ cs) v =
      life-config (stop s can_open srv).0 cs (stop-Inv s can_open srv v) ∙ stop-config can_open srv

  -- However the environment sets up the server, and whatever it then meets, it never holds more
  -- than 64 players, nor hands out an id outside 1 to 64.
  pub from_environment-InRange :
      (lib : Numerals) (env : Environment) (has_peer started : Bool) (now : ℕ) (file : Option Vec3)
      (cs : List Call)
      → AtMost 64
          (life s (start has_peer started now file (new_server (from_environment lib env))).0 cs)
  from_environment-InRange lib env has_peer started now file cs =
      let c : Config = from_environment lib env in
      let srv : Server = (start has_peer started now file (new_server c)).0 in
      let same =
        life-config srv cs (start-Inv has_peer started now file c)
        ∙ start-config has_peer started now file c in
      AtMost-le (life s srv cs) 64 (rw same (from_environment-IsValid lib env).few_players)
        (life-start-Inv s has_peer started now file c cs)
