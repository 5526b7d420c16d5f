-- ===== src/Tunnel/Pump.antt =====
-- WriteAll and PumpConnection of Server/src/Tunnel.cpp. What the system calls return is an
-- argument: one result for each send, and one `Poll` for each round of the loop.
use crossover.Prelude.{
  ℕ, zero, suc, Bool, true, false, List, [], ◌∷◌, ◌++◌, take, drop, Option, none, some,
  if◌then◌else◌,
}
use crossover.Tunnel.Framing.{frame, Status, waiting, bad_frame, out_of_fuel, Drained, deframe}

-- What ::send and, where the socket would block, ::poll return: `sent n` bytes, and whether the
-- socket became writable in two seconds.
pub data SendResult : Type 0 where
  sent : (n : ℕ) → SendResult
  interrupted : SendResult
  would_block : (writable : Bool) → SendResult
  failed : SendResult

-- The bytes that went out, and the value returned: `none` while the calls have not yet returned.
pub record Written : Type 0 where
  pub bytes : List ℕ
  pub result : Option Bool

abbrev pub returned : Bool → Written
returned b = record { bytes = []; result = some b }

abbrev pub after_bytes : List ℕ → Written → Written
after_bytes xs w = record w { bytes = xs ++ w.bytes }

-- A send of no bytes is an error, as in the source. `remaining` is what is not sent yet.
unfoldable pub write_all : List ℕ → List SendResult → Written
write_all [] rs = returned true
write_all (b ∷ remaining) [] = record { bytes = []; result = none }
write_all (b ∷ remaining) (sent zero ∷ rs) = returned false
write_all (b ∷ remaining) (sent (suc n) ∷ rs) =
    after_bytes (take (suc n) (b ∷ remaining)) (write_all (drop (suc n) (b ∷ remaining)) rs)
write_all (b ∷ remaining) (interrupted ∷ rs) = write_all (b ∷ remaining) rs
write_all (b ∷ remaining) (would_block true ∷ rs) = write_all (b ∷ remaining) rs
write_all (b ∷ remaining) (would_block false ∷ rs) = returned false
write_all (b ∷ remaining) (failed ∷ rs) = returned false

-- ::recv on the TCP socket: the end of the stream, EINTR or EAGAIN, another error, or bytes.
pub data TcpRead : Type 0 where
  closed again broken : TcpRead
  received : (bytes : List ℕ) → TcpRead

-- A datagram from the relay, with what the sends of its frame return.
pub record UdpRead : Type 0 where
  pub datagram : List ℕ
  pub sends : List SendResult

-- One call of ::poll. `ready` says what is pending: an error or hang-up on the TCP socket, a read
-- there, and the datagrams that the UDP socket yields before a read that
-- returns no bytes.
pub data Poll : Type 0 where
  timed_out poll_interrupted poll_failed : Poll
  ready : (hung_up : Bool) (tcp : Option TcpRead) (udp : Option (List UdpRead)) → Poll

-- A connection: its buffer, and whether its loop still runs.
pub record Pump : Type 0 where
  pub inbound : List ℕ
  pub open? : Bool

-- What a round passed to the relay and to the client.
pub record Passed : Type 0 where
  pub to_relay : List (List ℕ)
  pub to_client : List ℕ

abbrev pub nothing : Passed
nothing = record { to_relay = []; to_client = [] }

-- The rest of the inner loop comes behind a frame that WriteAll says is written.
abbrev pub go_on : List ℕ → Option Bool → List ℕ × Bool → List ℕ × Bool
go_on out (some true) (more, ok) = (out ++ more, ok)
go_on out (some false) rest = (out, false)
go_on out none rest = (out, false)

-- The inner loop over the UDP socket: it stops at the first frame that is not written whole. `true`
-- says that all were.
unfoldable pub forward_udp : List UdpRead → List ℕ × Bool
forward_udp [] = ([], true)
forward_udp (u ∷ us) =
    let w : Written = write_all (frame u.datagram) u.sends in
    go_on w.bytes w.result (forward_udp us)

abbrev pub close : Pump → Pump
close p = record p { open? = false }

-- `if (pfds[1].revents & POLLIN)`, behind the datagrams that the round already passed on.
unfoldable pub udp_side : Pump → List (List ℕ) → Option (List UdpRead) → Pump × Passed
udp_side p to_relay none = (p, record { to_relay = to_relay; to_client = [] })
udp_side p to_relay (some us) =
    let (bytes, ok) = forward_udp us in
    (if ok then p else close p, record { to_relay = to_relay; to_client = bytes })

abbrev pub is_waiting : Status → Bool
is_waiting waiting = true
is_waiting bad_frame = false
is_waiting out_of_fuel = false

-- `if (pfds[0].revents & POLLIN)`.
unfoldable pub tcp_side : Pump → Option TcpRead → Option (List UdpRead) → Pump × Passed
tcp_side p none udp = udp_side p [] udp
tcp_side p (some closed) udp = (close p, nothing)
tcp_side p (some again) udp = (p, nothing)
tcp_side p (some broken) udp = (close p, nothing)
tcp_side p (some (received bytes)) udp =
    let r : Drained = deframe (p.inbound ++ bytes) in
    let p' : Pump = record p { inbound = r.rest } in
    if is_waiting r.status
    then udp_side p' r.datagrams udp
    else (close p', record { to_relay = r.datagrams; to_client = [] })

-- One round of `while (running_)`.
unfoldable pub pump_round : Pump → Poll → Pump × Passed
pump_round p timed_out = (p, nothing)
pump_round p poll_interrupted = (p, nothing)
pump_round p poll_failed = (close p, nothing)
pump_round p (ready hung_up tcp udp) = if hung_up then (close p, nothing) else tcp_side p tcp udp

abbrev pub both : Passed → Passed → Passed
both a b = record { to_relay = a.to_relay ++ b.to_relay; to_client = a.to_client ++ b.to_client }

-- The rounds of a connection until its loop ends.
unfoldable pub pump : Pump → List Poll → Pump × Passed
pump p [] = (p, nothing)
pump p (e ∷ es) =
    let (p', out) = pump_round p e in
    let (p'', more) = pump p' es in if p.open? then (p'', both out more) else (p, nothing)

-- A fresh connection.
abbrev pub opened : Pump
opened = record { inbound = []; open? = true }
