-- ===== src/Tunnel/Room.antt =====
-- The fixed buffer of Server/tunnel-client/crossover-tunnel.c always has room for the next read.
use crossover.Prelude.{
  ℕ, ◌+◌, ◌-◌, ◌≤◌, ◌<◌, ◌≡◌, refl, List, [], ◌∷◌, ◌++◌, length, Option, none, some, arith, ap,
  Option-cases, inl, inr,
}
use crossover.Tunnel.Framing.{max_datagram, frame_header}
use crossover.Tunnel.Stream.{deframe-rest-lt, deframe_ends}
use crossover.Tunnel.Client.{
  Client, Select, select_interrupted, select_failed, timed_out, readable, GameRead, ServerRead,
  closed, broken, received, game_side, server_side, client_round, client_run, inbound_size,
}

-- Less than one largest frame is buffered.
abbrev pub IsRoomy : Client → Type 0
IsRoomy c = length c.inbound < frame_header + max_datagram

game_side-inbound :
    (c : Client) (udp : Option (Option GameRead)) → (game_side c udp).0.inbound ≡ c.inbound
unfolding game_side
game_side-inbound c none = refl
game_side-inbound c (some none) = refl
game_side-inbound c (some (some g)) = ground arith

server_side-IsRoomy :
    (c : Client) (tcp : Option ServerRead)
    → IsRoomy c
    → (server_side c tcp).0.exited ≡ none
    → IsRoomy (server_side c tcp).0
unfolding server_side
server_side-IsRoomy c none h e = h
server_side-IsRoomy c (some closed) h e = h
server_side-IsRoomy c (some broken) h e = h
server_side-IsRoomy c (some (received bytes)) h e =
    ground (arith, deframe-rest-lt (c.inbound ++ bytes), deframe_ends (c.inbound ++ bytes))

round-IsRoomy :
    (c : Client) (e : Select)
    → IsRoomy c
    → (client_round c e).0.exited ≡ none
    → IsRoomy (client_round c e).0
unfolding client_round
round-IsRoomy c select_interrupted h x = h
round-IsRoomy c select_failed h x = h
round-IsRoomy c timed_out h x = h
round-IsRoomy c (readable udp tcp) h x =
    ground (arith, game_side-inbound c udp, server_side-IsRoomy (game_side c udp).0 tcp)

client_run_exited :
    (c : Client) (es : List Select) (n : ℕ)
    → c.exited ≡ some n
    → (client_run c es).0.exited ≡ some n
unfolding client_run
client_run_exited c [] n h = h
client_run_exited c (e ∷ es) n h = ground arith

run_step :
    (c : Client) (e : Select) (es : List Select)
    → (client_run c (e ∷ es)).0.exited ≡ none
    → ((client_run (client_round c e).0 es).0.exited ≡ none)
      × ((client_run c (e ∷ es)).0.inbound ≡ (client_run (client_round c e).0 es).0.inbound)
unfolding client_run
run_step c e es x = ground arith

still_running :
    (c : Client) (es : List Select) → (client_run c es).0.exited ≡ none → c.exited ≡ none
still_running c es x = elim (Option-cases c.exited) [
  | inl e ↦ e
  | inr (n, e) ↦ ground (arith, client_run_exited c es n e)
]

run-IsRoomy :
    (c : Client) (es : List Select)
    → IsRoomy c
    → (client_run c es).0.exited ≡ none
    → IsRoomy (client_run c es).0
unfolding client_run
run-IsRoomy c [] h x = h
run-IsRoomy c (e ∷ es) h x =
    let (y, same) = run_step c e es x in
    let roomy : IsRoomy (client_round c e).0 = round-IsRoomy c e h (still_running _ es y) in
    omega (arith, ap length same, run-IsRoomy (client_round c e).0 es roomy y)

-- As long as the client runs, having started with less than one largest frame in its buffer, at
-- least 6143 bytes of its buffer of 8192 are free when it reads next, whatever came before: recv
-- is never asked for no bytes, which it would report as a closed connection.
pub client_run-room :
    (c : Client) (es : List Select)
    → IsRoomy c
    → (client_run c es).0.exited ≡ none
    → 6143 ≤ inbound_size - length (client_run c es).0.inbound
client_run-room c es h x = omega (arith, run-IsRoomy c es h x)
