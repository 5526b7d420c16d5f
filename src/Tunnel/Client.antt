-- ===== src/Tunnel/Client.antt =====
-- Server/tunnel-client/crossover-tunnel.c: the player's end of the tunnel. An exit status is a
-- value, and what the system calls return is an argument.
use crossover.Prelude.{
  ℕ, zero, suc, ◌*◌, ◌%◌, ◌^◌, Bool, true, false, not, List, [], ◌∷◌, ◌++◌, take, drop, Option,
  none, some, ltb, ◌&&◌, if◌then◌else◌,
}
use crossover.Tunnel.Framing.{
  max_datagram, frame, Status, waiting, bad_frame, out_of_fuel, Drained, deframe,
}

abbrev pub default_local_port : ℕ
default_local_port = 60000

-- sizeof(inbound)
abbrev pub inbound_size : ℕ
inbound_size = max_datagram * 4

-- `for (ai = res; ai; ai = ai->ai_next)`: whether socket and connect succeed for each address; the
-- first that connects is used.
pub record Attempt : Type 0 where
  pub socket_made : Bool
  pub connected : Bool

unfoldable pub connect_first : List Attempt → Option ℕ
connect_first [] = none
connect_first (a ∷ as') =
    let later : Option ℕ = elim (connect_first as') [ none ↦ none | some i ↦ some (suc i) ] in
    if a.socket_made then (if a.connected then some 0 else later) else later

-- What main meets before its loop: the port that atoi reads, if one is given; the addresses, `none`
-- if the name does not resolve; and whether each of the later calls succeeds.
pub record Setup : Type 0 where
  pub argc : ℕ
  pub local_port_arg : Option ℕ
  pub addresses : Option (List Attempt)
  pub udp_socket : Bool
  pub any_address : Bool  -- bind-address is 0.0.0.0
  pub is_ipv4 : Bool
  pub bound : Bool

abbrev pub local_port : Setup → ℕ
local_port e = elim e.local_port_arg [ none ↦ default_local_port | some n ↦ n % 2 ^ 16 ]

-- The address connected to and the local port, or the exit status.
pub data Ready : Type 0 where
  ready : (address port : ℕ) → Ready
  exit : (status : ℕ) → Ready

unfoldable pub bind_local : Setup → ℕ → Ready
bind_local e i =
    if not e.udp_socket
    then exit 1
    else if not e.any_address && not e.is_ipv4
    then exit 1
    else if e.bound
    then ready i (local_port e)
    else exit 1

unfoldable pub set_up : Setup → Ready
set_up e = if ltb e.argc 3 then exit 2 else elim e.addresses [
  | none ↦ exit 1
  | some [] ↦ exit 1
  | some (a ∷ as') ↦ elim (connect_first (a ∷ as')) [ none ↦ exit 1 | some i ↦ bind_local e i ]
]

-- The loop's state: the game's address once it has been heard, and the first `inboundLen` bytes of
-- the buffer.
pub record Client : Type 0 where
  pub game : Option ℕ
  pub inbound : List ℕ
  pub exited : Option ℕ

abbrev pub quit : Client → Client
quit c = record c { exited = some 1 }

-- The send loop: what each send returns, 0 standing for a failure too. It gives the bytes that went
-- out, and whether all did.
unfoldable pub send_all : List ℕ → List ℕ → List ℕ × Bool
send_all [] ws = ([], true)
send_all (b ∷ remaining) [] = ([], false)
send_all (b ∷ remaining) (zero ∷ ws) = ([], false)
send_all (b ∷ remaining) (suc n ∷ ws) =
    let (out, ok) = send_all (drop (suc n) (b ∷ remaining)) ws in
    (take (suc n) (b ∷ remaining) ++ out, ok)

-- A datagram of the game, from its address; `none` is a recvfrom that returned no bytes.
pub record GameRead : Type 0 where
  pub from : ℕ
  pub datagram : List ℕ
  pub sends : List ℕ

-- recv on the TCP socket: 0, a negative number, or bytes.
pub data ServerRead : Type 0 where
  closed broken : ServerRead
  received : (bytes : List ℕ) → ServerRead

-- One call of select.
pub data Select : Type 0 where
  select_interrupted select_failed timed_out : Select
  readable : (udp : Option (Option GameRead)) (tcp : Option ServerRead) → Select

pub record Passed : Type 0 where
  pub to_server : List ℕ
  pub to_game : List (ℕ × List ℕ)

abbrev pub nothing : Passed
nothing = record { to_server = []; to_game = [] }

-- The first sender is taken for the game and never changes.
abbrev pub learn : Option ℕ → ℕ → ℕ
learn none from = from
learn (some g) from = g

-- Game to server.
unfoldable pub game_side : Client → Option (Option GameRead) → Client × List ℕ
game_side c none = (c, [])
game_side c (some none) = (c, [])
game_side c (some (some g)) =
    let c' : Client = record c { game = some (learn c.game g.from) } in
    let (out, ok) = send_all (frame g.datagram) g.sends in (if ok then c' else quit c', out)

-- A datagram goes to the game if it is known, and is dropped otherwise.
abbrev pub addressed : Option ℕ → List (List ℕ) → List (ℕ × List ℕ)
addressed none ds = []
addressed (some g) [] = []
addressed (some g) (d ∷ ds) = (g, d) ∷ addressed (some g) ds

abbrev pub unless_bad : Status → Client → Client
unless_bad waiting c = c
unless_bad bad_frame c = quit c
unless_bad out_of_fuel c = c

-- Server to game. A bad frame leaves the program.
unfoldable pub server_side : Client → Option ServerRead → Client × List (ℕ × List ℕ)
server_side c none = (c, [])
server_side c (some closed) = (quit c, [])
server_side c (some broken) = (quit c, [])
server_side c (some (received bytes)) =
    let r : Drained = deframe (c.inbound ++ bytes) in
    let c' : Client = record c { inbound = r.rest } in
    (unless_bad r.status c', addressed c.game r.datagrams)

-- One round of `for (;;)`.
unfoldable pub client_round : Client → Select → Client × Passed
client_round c select_interrupted = (c, nothing)
client_round c select_failed = (quit c, nothing)
client_round c timed_out = (c, nothing)
client_round c (readable udp tcp) =
    let (c₁, out) = game_side c udp in
    let (c₂, ds) = server_side c₁ tcp in
    elim c₁.exited [
      | some _ ↦ (c₁, record { to_server = out; to_game = [] })
      | none ↦ (c₂, record { to_server = out; to_game = ds })
    ]

abbrev pub both : Passed → Passed → Passed
both a b = record { to_server = a.to_server ++ b.to_server; to_game = a.to_game ++ b.to_game }

-- The rounds until the program exits.
unfoldable pub client_run : Client → List Select → Client × Passed
client_run c [] = (c, nothing)
client_run c (e ∷ es) =
    let (c', out) = client_round c e in
    let (c'', more) = client_run c' es in
    elim c.exited [ none ↦ (c'', both out more) | some _ ↦ (c, nothing) ]
