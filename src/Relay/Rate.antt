-- ===== src/Relay/Rate.antt =====
-- The flood guard AcceptRate of Server/src/RelayServer.cpp, and what Tick does with its answer.
use crossover.Prelude.{
  ℕ, suc, ◌+◌, ◌-◌, ◌*◌, ◌/◌, ◌≤◌, ◌<◌, ◌≡◌, ◌⊎◌, refl, ◌∙◌, Bool, true, false, List, [], ◌∷◌,
  length, All, some, leb, if◌then◌else◌, arith, if_cases,
}
use Prim.Native.Nat.{min}
use crossover.Wire.Bytes.{BitStream}
use crossover.Relay.State.{Player, Server, Arrival, Effect}
use crossover.Relay.Lookup.{ids, find_by_address, replace_by_address}
use crossover.Relay.Handlers.{handle_connection_notification}
use crossover.Relay.Session.{
  max_packets_per_second, accept_rate, touch, connection, kind_of, handle, receive_from, receive,
}
use crossover.Relay.Members.{ids-replace, find-replace, find-address}
use crossover.Relay.Invariant.{accept_rate-Same}

-- How many of the packets that arrive at these times are accepted.
pub accepted : Player → List ℕ → ℕ
accepted p [] = 0
accepted p (t ∷ ts) =
    let (q, ok) = accept_rate p t in if ok then suc (accepted q ts) else accepted q ts

-- A packet opens a new window, or is counted in the old one.
abbrev Outcome : Player → ℕ → Player × Bool → Type 0
Outcome p t (q, ok) =
    ((1000 ≤ t - p.rate_window_start_ms)
      × (q.rate_window_start_ms ≡ t)
      × (q.rate_window_count ≡ 1)
      × (ok ≡ true))
    ⊎ ((t - p.rate_window_start_ms < 1000)
        × (q.rate_window_start_ms ≡ p.rate_window_start_ms)
        × (q.rate_window_count ≡ suc p.rate_window_count)
        × (ok ≡ leb (suc p.rate_window_count) max_packets_per_second))

accept_rate_lem : (p : Player) (t : ℕ) → Outcome p t (accept_rate p t)
unfolding accept_rate
accept_rate_lem p t = ground arith

accepted_and_counted :
    (p : Player) (ts : List ℕ) (end : ℕ)
    → All (λ t. t ≤ end) ts
    → accepted p ts + min max_packets_per_second p.rate_window_count
      ≤ max_packets_per_second * (1 + (end - p.rate_window_start_ms) / 1000)
unfolding accepted
accepted_and_counted p [] end h = omega arith
accepted_and_counted p (t ∷ ts) end h =
    ground (arith, accept_rate_lem p t, accepted_and_counted (accept_rate p t).0 ts end h.1)

-- Over any stretch of time, whatever the arrival times, the packets accepted from one client are
-- at most 600 for each second that began since its window started.
pub accepted-le :
    (p : Player) (ts : List ℕ) (end : ℕ)
    → All (λ t. t ≤ end) ts
    → accepted p ts ≤ max_packets_per_second * (1 + (end - p.rate_window_start_ms) / 1000)
accepted-le p ts end h = omega (arith, accepted_and_counted p ts end h)

-- Inside one window, a client's packets are accepted until the window holds 600 of them, and from
-- then on none is.
pub accepted_in_window :
    (p : Player) (ts : List ℕ)
    → All (λ t. t - p.rate_window_start_ms < 1000) ts
    → accepted p ts ≡ min (length ts) (max_packets_per_second - p.rate_window_count)
unfolding accepted
accepted_in_window p [] h = omega arith
accepted_in_window p (t ∷ ts) h =
    ground (arith, accept_rate_lem p t, accepted_in_window (accept_rate p t).0 ts, same_window)
  where
    q : Player
    q = (accept_rate p t).0

    same_window :
        q.rate_window_start_ms ≡ p.rate_window_start_ms
        → All (λ u. u - q.rate_window_start_ms < 1000) ts
    same_window e = rw e h.1

-- A connection notification from an address that the server knows is not answered.
unanswered :
    (s : BitStream) (srv : Server) (a : Arrival) {p : Player}
    → find_by_address a.packet.system_address srv.players ≡ some p
    → kind_of a.packet.id ≡ connection
    → (receive s srv a).1 ≡ []
unfolding receive receive_from handle handle_connection_notification
unanswered s srv a {p} known new =
    rw (known, receive, receive_from)
      (if_cases {A = Server × List Effect} (λ r. r.1 ≡ []) (accept_rate (touch p a.at_ms) a.at_ms).1
        (λ _. rw new (rw (again, handle_connection_notification) refl)) (λ _. refl))
  where
    q : Player
    q = (accept_rate (touch p a.at_ms) a.at_ms).0

    again :
        find_by_address a.packet.system_address
          (replace_by_address a.packet.system_address q srv.players)
        ≡ some q
    again = find-replace a.packet.system_address q srv.players known (
        (accept_rate-Same p a.at_ms).same_address
        ∙ find-address a.packet.system_address srv.players known)

module _ (s : BitStream) (srv : Server) (a : Arrival) (p : Player)
    (known : find_by_address a.packet.system_address srv.players ≡ some p)
    (full : max_packets_per_second ≤ p.rate_window_count)
    (in_window : a.at_ms - p.rate_window_start_ms < 1000) where
  over : (accept_rate (touch p a.at_ms) a.at_ms).1 ≡ false
  over = ground (arith, accept_rate_lem (touch p a.at_ms) a.at_ms)

  -- A client that has used up its window is not heard as long as the window lasts: whatever its
  -- next packet is, a disconnection included, nothing is sent and every player keeps its id.
  pub receive_over_limit :
      ((receive s srv a).1 ≡ []) × (ids (receive s srv a).0.players ≡ ids srv.players)
  unfolding receive receive_from
  receive_over_limit =
      rw (known, receive, receive_from)
        (rw over (
          refl,
          ids-replace a.packet.system_address _ srv.players known (accept_rate-Same p a.at_ms),
        ))

  stays :
      find_by_address a.packet.system_address (receive s srv a).0.players
      ≡ some (accept_rate (touch p a.at_ms) a.at_ms).0
  unfolding receive receive_from
  stays =
      rw (known, receive, receive_from)
        (rw over (
          find-replace a.packet.system_address _ srv.players known (
            (accept_rate-Same p a.at_ms).same_address
            ∙ find-address a.packet.system_address srv.players known)))

  -- After a packet of a client that has used up its window, and be it its disconnection, the
  -- client is still taken for connected: its later connection notification, from the same address,
  -- is not answered.
  pub reconnect_after_flood :
      (again : Arrival)
      → again.packet.system_address ≡ a.packet.system_address
      → kind_of again.packet.id ≡ connection
      → (receive s (receive s srv a).0 again).1 ≡ []
  reconnect_after_flood again same new =
      unanswered s (receive s srv a).0 again {p = (accept_rate (touch p a.at_ms) a.at_ms).0}
        (rw same stays) new
