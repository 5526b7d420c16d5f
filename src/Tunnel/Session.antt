-- ===== src/Tunnel/Session.antt =====
-- The player's end of the tunnel, round by round: Server/tunnel-client/crossover-tunnel.c.
use crossover.Prelude.{
  ℕ, ◌≡◌, ◌≢◌, inl, inr, refl, sym, ap, ◌∙◌, true, List, [], ◌∷◌, ◌++◌, Option, none, some,
  append_assoc, append-nil, All,
}
use crossover.Tunnel.Framing.{waiting, bad_frame, Drained, stopped, frame, deframe, frames}
use crossover.Tunnel.Stream.{
  IsDatagram, deframe_ends, deframe-rest, deframe-append_waiting, bad_stays, deframe-frames,
  deframe_nil,
}
use crossover.Tunnel.Reassembly.{Status-cases}
use crossover.Tunnel.Client.{
  Client, GameRead, ServerRead, closed, broken, received, Select, select_interrupted, select_failed,
  timed_out, readable, Passed, nothing, both, send_all, client_run, client_round, game_side,
  server_side, addressed, unless_bad,
}

-- The bytes that a round brings from the server, and the datagrams that it brings from the game.
abbrev pub from_server : Select → List ℕ
from_server select_interrupted = []
from_server select_failed = []
from_server timed_out = []
from_server (readable udp none) = []
from_server (readable udp (some closed)) = []
from_server (readable udp (some broken)) = []
from_server (readable udp (some (received bytes))) = bytes

abbrev pub from_game : Select → List (List ℕ)
from_game select_interrupted = []
from_game select_failed = []
from_game timed_out = []
from_game (readable none tcp) = []
from_game (readable (some none) tcp) = []
from_game (readable (some (some r)) tcp) = r.datagram ∷ []

-- All that is sent for the game's datagram goes out, and the server does not close the connection.
abbrev pub Sends : Option (Option GameRead) → Type 0
Sends none = Unit
Sends (some none) = Unit
Sends (some (some r)) = send_all (frame r.datagram) r.sends ≡ (frame r.datagram, true)

abbrev pub Stays : Option ServerRead → Type 0
Stays none = Unit
Stays (some closed) = ⊥
Stays (some broken) = ⊥
Stays (some (received bytes)) = Unit

-- A round in which no call fails: whatever comes from the game, from any address, and the server.
abbrev pub Calm : Select → Type 0
Calm select_interrupted = Unit
Calm select_failed = ⊥
Calm timed_out = Unit
Calm (readable udp tcp) = Sends udp × Stays tcp

abbrev pub listening : Client
listening = record { game = none; inbound = []; exited = none }

abbrev pub playing : ℕ → List ℕ → Client
playing g buf = record { game = some g; inbound = buf; exited = none }

game_side-playing :
    (g : ℕ) (buf : List ℕ) (udp : Option (Option GameRead)) (tcp : Option ServerRead)
    → Sends udp
    → game_side (playing g buf) udp ≡ (playing g buf, frames (from_game (readable udp tcp)))
unfolding game_side
game_side-playing g buf none tcp h = refl
game_side-playing g buf (some none) tcp h = refl
game_side-playing g buf (some (some r)) tcp h = rw (h, append-nil) refl

-- The round behind the game's side.
abbrev rest_of_round : Client × List ℕ → Option ServerRead → Client × Passed
rest_of_round (c, out) tcp =
    let (c', ds) = server_side c tcp in
    elim c.exited [
      | some _ ↦ (c, record { to_server = out; to_game = [] })
      | none ↦ (c', record { to_server = out; to_game = ds })
    ]

round-rest :
    (c : Client) (udp : Option (Option GameRead)) (tcp : Option ServerRead)
    → client_round c (readable udp tcp) ≡ rest_of_round (game_side c udp) tcp
unfolding client_round
round-rest c udp tcp = refl

-- What a client that knows the game makes of the server's bytes.
abbrev heard : ℕ → List ℕ → List ℕ → Select → Client × Passed
heard g buf bytes e = (
  playing g (deframe (buf ++ bytes)).rest,
  record {
    to_server = frames (from_game e);
    to_game = addressed (some g) (deframe (buf ++ bytes)).datagrams;
  },
)

round_readable :
    (g : ℕ) (buf : List ℕ) (udp : Option (Option GameRead)) (tcp : Option ServerRead)
    → Calm (readable udp tcp)
    → deframe buf ≡ stopped buf waiting
    → client_round (playing g buf) (readable udp tcp)
      ≡ rest_of_round (playing g buf, frames (from_game (readable udp tcp))) tcp
round_readable g buf udp tcp c p =
    round-rest (playing g buf) udp tcp
    ∙ ap (λ q. rest_of_round q tcp) (game_side-playing g buf udp tcp c.0)

nothing_new :
    (g : ℕ) (buf : List ℕ) (e : Select)
    → deframe buf ≡ stopped buf waiting
    → heard g buf [] e ≡ (playing g buf, record { to_server = frames (from_game e); to_game = [] })
nothing_new g buf e p = rw (append-nil buf, p) refl

-- A calm round of a client that knows the game.
round_waiting :
    (g : ℕ) (buf : List ℕ) (e : Select)
    → Calm e
    → deframe buf ≡ stopped buf waiting
    → (deframe (buf ++ from_server e)).status ≡ waiting
    → client_round (playing g buf) e ≡ heard g buf (from_server e) e
unfolding client_round server_side
round_waiting g buf select_interrupted c p w = sym (nothing_new g buf select_interrupted p)
round_waiting g buf select_failed c p w = absurd c
round_waiting g buf timed_out c p w = sym (nothing_new g buf timed_out p)
round_waiting g buf (readable udp none) c p w =
    round_readable g buf udp none c p ∙ sym (nothing_new g buf (readable udp none) p)
round_waiting g buf (readable udp (some closed)) c p w = absurd c.1
round_waiting g buf (readable udp (some broken)) c p w = absurd c.1
round_waiting g buf (readable udp (some (received bytes))) c p w =
    round_readable g buf udp (some (received bytes)) c p ∙ rw (w, unless_bad) refl

waiting_not_bad : waiting ≢ bad_frame
waiting_not_bad h = cc

-- If all of the bytes end in no bad frame, the bytes before any cut do not either.
waits_before :
    (xs ys : List ℕ) → (deframe (xs ++ ys)).status ≡ waiting → (deframe xs).status ≡ waiting
waits_before xs ys w = elim (Status-cases (deframe xs).status (deframe_ends xs)) [
  | inl h ↦ h
  | inr bad ↦ absurd (waiting_not_bad (sym w ∙ bad_stays xs ys bad))
]

abbrev pub all_from_server : List Select → List ℕ
all_from_server [] = []
all_from_server (e ∷ es) = from_server e ++ all_from_server es

abbrev pub all_from_game : List Select → List (List ℕ)
all_from_game [] = []
all_from_game (e ∷ es) = from_game e ++ all_from_game es

frames-append : (xs ys : List (List ℕ)) → frames (xs ++ ys) ≡ frames xs ++ frames ys
frames-append [] ys = refl
frames-append (x ∷ xs) ys =
    ap (◌++◌ (frame x)) (frames-append xs ys) ∙ sym (append_assoc (frame x) (frames xs) (frames ys))

addressed-append :
    (g : ℕ) (xs ys : List (List ℕ))
    → addressed (some g) (xs ++ ys) ≡ addressed (some g) xs ++ addressed (some g) ys
addressed-append g [] ys = refl
addressed-append g (x ∷ xs) ys = ap (◌∷◌ (g, x)) (addressed-append g xs ys)

-- What a client that knows the game has passed on after some rounds.
abbrev pub Relays : ℕ → List ℕ → List Select → Passed → Type 0
Relays g buf es p =
    (p.to_game ≡ addressed (some g) (deframe (buf ++ all_from_server es)).datagrams)
    × (p.to_server ≡ frames (all_from_game es))

client_hears :
    (g : ℕ) (buf : List ℕ) (es : List Select)
    → All Calm es
    → deframe buf ≡ stopped buf waiting
    → (deframe (buf ++ all_from_server es)).status ≡ waiting
    → Relays g buf es (client_run (playing g buf) es).1
unfolding client_run
client_hears g buf [] c p w = (rw (append-nil buf, p) refl, refl)
client_hears g buf (e ∷ es) c p w =
    let more : List ℕ = all_from_server es in
    let assoc : (buf ++ from_server e) ++ more ≡ buf ++ (from_server e ++ more) =
      append_assoc buf (from_server e) more in
    let w' : (deframe (buf ++ from_server e)).status ≡ waiting =
      waits_before (buf ++ from_server e) more (rw assoc w) in
    let split = deframe-append_waiting (buf ++ from_server e) more w' in
    let (game, server) =
      client_hears g (deframe (buf ++ from_server e)).rest es c.1
        (deframe-rest (buf ++ from_server e) w') (sym (ap (λ r. r.status) split) ∙ rw assoc w) in
    rw
      (
        round_waiting g buf e c.0 p w',
        game,
        server,
        ← assoc,
        split,
        addressed-append,
        frames-append,
      )
      (refl, refl)

-- A round that brings nothing.
abbrev pub Idle : Select → Type 0
Idle select_interrupted = Unit
Idle select_failed = ⊥
Idle timed_out = Unit
Idle (readable none none) = Unit
Idle (readable (some none) none) = Unit
Idle (readable (some (some r)) none) = ⊥
Idle (readable udp (some t)) = ⊥

client_round-Idle : (e : Select) → Idle e → client_round listening e ≡ (listening, nothing)
unfolding client_round game_side server_side
client_round-Idle select_interrupted i = refl
client_round-Idle select_failed i = absurd i
client_round-Idle timed_out i = refl
client_round-Idle (readable none none) i = refl
client_round-Idle (readable (some none) none) i = refl
client_round-Idle (readable (some (some r)) none) i = absurd i
client_round-Idle (readable none (some t)) i = absurd i
client_round-Idle (readable (some none) (some t)) i = absurd i
client_round-Idle (readable (some (some r)) (some t)) i = absurd i

client_run-Idle :
    (before es : List Select)
    → All Idle before
    → client_run listening (before ++ es) ≡ client_run listening es
unfolding client_run
client_run-Idle [] es i = refl
client_run-Idle (e ∷ before) es i = rw (client_round-Idle e i.0, client_run-Idle before es i.1) refl

-- The first datagram tells the client where the game is.
learned_round :
    (r : GameRead) (tcp : Option ServerRead)
    → client_round listening (readable (some (some r)) tcp)
      ≡ client_round (playing r.from []) (readable (some (some r)) tcp)
unfolding client_round game_side
learned_round r tcp = refl

learned :
    (r : GameRead) (tcp : Option ServerRead) (es : List Select)
    → client_run listening (readable (some (some r)) tcp ∷ es)
      ≡ client_run (playing r.from []) (readable (some (some r)) tcp ∷ es)
unfolding client_run
learned r tcp es =
    ap (λ (q : Client × Passed). ((client_run q.0 es).0, both q.1 (client_run q.0 es).1))
      (learned_round r tcp)

-- The player's end of the tunnel, from its start and through rounds that bring nothing until the
-- game's first datagram: however the server's bytes are cut into reads, if they are the frames of
-- some datagrams, each non-empty and of at most 2048 bytes, the game gets exactly these, in order,
-- at the address that the first datagram came from, and the server gets the frames of the game's
-- datagrams, in order. After the first, rounds may time out, be interrupted, and bring datagrams
-- from any address; select and recv do not fail, every datagram is sent whole, and the server does
-- not close the connection.
pub client_run-frames :
    (before : List Select) (r : GameRead) (tcp : Option ServerRead) (es : List Select)
    (ds : List (List ℕ))
    → All Idle before
    → All Calm (readable (some (some r)) tcp ∷ es)
    → All IsDatagram ds
    → all_from_server (readable (some (some r)) tcp ∷ es) ≡ frames ds
    → let p = (client_run listening (before ++ readable (some (some r)) tcp ∷ es)).1 in
      (p.to_game ≡ addressed (some r.from) ds)
      × (p.to_server ≡ frames (r.datagram ∷ all_from_game es))
client_run-frames before r tcp es ds idle calm h e =
    let all : List Select = readable (some (some r)) tcp ∷ es in
    let framed : deframe (all_from_server all)
        ≡ record { datagrams = ds; rest = []; status = waiting } =
      ap deframe (e ∙ sym (append-nil (frames ds)))
      ∙ deframe-frames ds [] h
      ∙ rw (deframe_nil, append-nil) refl in
    let (game, server) =
      client_hears r.from [] all calm deframe_nil (ap (λ (d : Drained). d.status) framed) in
    rw (client_run-Idle before all idle, learned r tcp es)
      (game ∙ ap (λ (d : Drained). addressed (some r.from) d.datagrams) framed, server)
