-- ===== src/Examples/TunnelExamples.antt =====
-- The tunnel's theorems at concrete streams.
use crossover.Prelude.{ℕ, ◌-◌, ◌≤◌, ◌≡◌, refl, true, some, none, List, [], ◌∷◌, ◌++◌, length, arith}
use crossover.Tunnel.Framing.{bad_frame, frame, frames, deframe, drain}
use crossover.Tunnel.Stream.{resume, deframe-append}
use crossover.Tunnel.Pump.{sent, failed, UdpRead, forward_udp}
use crossover.Tunnel.Client.{Client, GameRead, Select, timed_out, send_all, client_run}
use crossover.Tunnel.Client
use crossover.Tunnel.Writing.{Prefix, forward_udp_lem}
use crossover.Tunnel.Session.{listening, playing, client_run-frames}
use crossover.Tunnel.Room.{client_run-room}
use crossover.Tunnel.Accept.{Reach, capacity_exceeded}

-- Two datagrams, and their frames cut in the middle of a header and of a datagram.
abbrev two : List (List ℕ)
two = (7 ∷ 8 ∷ 9 ∷ []) ∷ (5 ∷ []) ∷ []

abbrev cuts : List (List ℕ)
cuts = (0 ∷ []) ∷ (3 ∷ 7 ∷ 8 ∷ []) ∷ (9 ∷ 0 ∷ 1 ∷ 5 ∷ []) ∷ []

-- The game sends from 77, the server's bytes come in two parts, and 99 sends a datagram too.
abbrev hello : GameRead
hello = record { from = 77; datagram = 4 ∷ []; sends = 3 ∷ [] }

abbrev stranger : GameRead
stranger = record { from = 99; datagram = 6 ∷ []; sends = 1 ∷ 2 ∷ [] }

abbrev later_rounds : List Select
later_rounds =
    timed_out
    ∷ Client.readable (some (some stranger)) (some (Client.received (0 ∷ 3 ∷ 7 ∷ [])))
    ∷ Client.readable none (some (Client.received (8 ∷ 9 ∷ 0 ∷ 1 ∷ 5 ∷ [])))
    ∷ []

client_run-frames_example :
    let p =
      (client_run listening
        ((timed_out ∷ []) ++ Client.readable (some (some hello)) none ∷ later_rounds)).1 in
    (p.to_game ≡ (77, 7 ∷ 8 ∷ 9 ∷ []) ∷ (77, 5 ∷ []) ∷ [])
    × (p.to_server ≡ frames ((4 ∷ []) ∷ (6 ∷ []) ∷ []))
unfolding frame send_all
client_run-frames_example =
    client_run-frames (timed_out ∷ []) hello none later_rounds two (tt, tt)
      ((refl, tt), (tt, ((refl, tt), ((tt, tt), tt))))
      ((omega arith, omega arith), ((omega arith, omega arith), tt)) refl

deframe-append_example :
    deframe ((0 ∷ 3 ∷ 7 ∷ []) ++ (8 ∷ 9 ∷ 0 ∷ 0 ∷ []))
    ≡ resume (deframe (0 ∷ 3 ∷ 7 ∷ [])) (8 ∷ 9 ∷ 0 ∷ 0 ∷ [])
deframe-append_example = deframe-append (0 ∷ 3 ∷ 7 ∷ []) (8 ∷ 9 ∷ 0 ∷ 0 ∷ [])

bad_length_stops :
    deframe (0 ∷ 1 ∷ 4 ∷ 0 ∷ 0 ∷ 6 ∷ [])
    ≡ record { datagrams = (4 ∷ []) ∷ []; rest = 0 ∷ 0 ∷ 6 ∷ []; status = bad_frame }
unfolding deframe drain
bad_length_stops = refl

abbrev udp : List UdpRead
udp =
    record { datagram = 7 ∷ []; sends = sent 3 ∷ [] }
    ∷ record { datagram = 8 ∷ 9 ∷ []; sends = sent 1 ∷ failed ∷ [] }
    ∷ []

forward_udp_lem_example :
    Prefix (forward_udp udp).0 (0 ∷ 1 ∷ 7 ∷ 0 ∷ 2 ∷ 8 ∷ 9 ∷ []) ((forward_udp udp).1 ≡ true)
unfolding frame
forward_udp_lem_example = forward_udp_lem udp

client_run-room_example :
    6143
    ≤ 8192
      - length
          (client_run
            (playing 77 [])
            (Client.readable none (some (Client.received (0 ∷ 3 ∷ 7 ∷ []))) ∷ [])).0.inbound
unfolding client_run Client.client_round Client.game_side Client.server_side deframe drain
client_run-room_example =
    client_run-room (playing 77 [])
      (Client.readable none (some (Client.received (0 ∷ 3 ∷ 7 ∷ []))) ∷ []) (omega arith) refl

capacity_exceeded_example : Reach 8 (record { active = 100; starting = 0 })
capacity_exceeded_example = capacity_exceeded 8 100 (omega arith)
