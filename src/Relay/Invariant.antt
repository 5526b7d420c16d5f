-- ===== src/Relay/Invariant.antt =====
-- What holds of the players at all times, whatever packets arrive.
use crossover.Prelude.{
  ℕ, ◌≤◌, ◌<◌, ◌≡◌, refl, sym, subst, Bool, false, not, List, [], ◌∷◌, ◌++◌, length, Option, none,
  some, contains, IsDistinct, IsDistinct-append, length-append, All, All-append, length-map,
  if_cases, arith,
}
use mathlib.Core.List.{map-append}
use crossover.Config.{Config}
use crossover.Ids.{IsLowestFree}
use crossover.Wire.Bytes.{BitStream, Vec3}
use crossover.Relay.State.{Player, Server, Packet, Arrival, Effect}
use crossover.Relay.Lookup.{
  ids, addresses, find_by_address, replace_by_address, first_client_network_id,
}
use crossover.Relay.Handlers.{
  remove_by_network_id, relay_movement, relay_rotation, remove_player, new_player, admit,
  handle_connection_notification, announce, handle_create_net_player, handle_player_movement,
  handle_player_rotation, handle_drop,
}
use crossover.Relay.Cases.{
  connection_cases, create_cases, movement_cases, rotation_cases, drop_cases,
}
use crossover.Relay.Session.{
  accept_rate, touch, Kind, connection, create, movement, rotation, drop, other, kind_of, handle,
  receive_from, receive, receive_all, persist_anchor, persist_if_due, tick, stop, start, new_server,
  load_persisted_anchor,
}
use crossover.Relay.Members.{
  find-address, find-none, Same, ids-replace, addresses-replace, length-replace,
  ids-remove-IsDistinct, addresses-remove-IsDistinct, length-remove-le, All-remove,
}

abbrev pub InRange : ℕ → ℕ → Type 0
InRange max i = (1 ≤ i) × (i ≤ max)

-- No two players share an id or an address; there are at most `max` of them, with ids 1 to `max`.
pub record Fits (max : ℕ) (ps : List Player) : Type 0 where
  pub distinct_ids : IsDistinct (ids ps)
  pub distinct_addresses : IsDistinct (addresses ps)
  pub few : length ps ≤ max
  pub in_range : All (InRange max) (ids ps)

abbrev pub Inv : Server → Type 0
Inv srv = Fits srv.config.max_players srv.players

Fits-replace :
    (max a : ℕ) (q : Player) (ps : List Player) {p : Player}
    → find_by_address a ps ≡ some p
    → Same p q
    → Fits max ps
    → Fits max (replace_by_address a q ps)
Fits-replace max a q ps h e v = record {
  distinct_ids = rw (ids-replace a q ps h e) v.distinct_ids;
  distinct_addresses = rw (addresses-replace a q ps h e) v.distinct_addresses;
  few = omega (arith, length-replace a q ps, v.few);
  in_range = rw (ids-replace a q ps h e) v.in_range;
}

Fits-remove : (max i : ℕ) (ps : List Player) → Fits max ps → Fits max (remove_by_network_id i ps)
Fits-remove max i ps v = record {
  distinct_ids = ids-remove-IsDistinct i ps v.distinct_ids;
  distinct_addresses = addresses-remove-IsDistinct i ps v.distinct_addresses;
  few = omega (arith, length-remove-le i ps, v.few);
  in_range = All-remove (InRange max) i ps v.in_range;
}

Fits-add :
    (max : ℕ) (ps : List Player) (p : Player)
    → Fits max ps
    → length ps < max
    → contains (addresses ps) p.address ≡ false
    → IsLowestFree first_client_network_id (ids ps) p.network_id
    → Fits max (ps ++ p ∷ [])
Fits-add max ps p v room new low = record {
  distinct_ids =
      rw (map-append _ ps (p ∷ []))
        (IsDistinct-append (ids ps) p.network_id v.distinct_ids low.free);
  distinct_addresses =
      rw (map-append _ ps (p ∷ []))
        (IsDistinct-append (addresses ps) p.address v.distinct_addresses new);
  few = omega (arith, length-append ps (p ∷ []));
  in_range = rw (map-append _ ps (p ∷ [])) (
      All-append (InRange max) (ids ps) (p.network_id ∷ []) v.in_range
        ((low.above, omega (arith, low.bound, length-map (λ (q : Player). q.network_id) ps)), tt));
}

-- The settings stay, and so does what holds of the players.
abbrev pub Keeps : Server → Server × List Effect → Type 0
Keeps srv r = (r.0.config ≡ srv.config) × Fits srv.config.max_players r.0.players

module _ (s : BitStream) (srv : Server) (k : Packet) (v : Inv srv) where
  connection-Keeps : (now : ℕ) → Keeps srv (handle_connection_notification s srv k now)
  unfolding admit
  connection-Keeps now =
      connection_cases s (Keeps srv) srv k now (refl, v) (refl, v)
        λ i e room low. (
          refl,
          Fits-add srv.config.max_players srv.players (new_player k i now) v room
              (find-none k.system_address srv.players e) low,
        )

  found :
      (p : Player)
      → find_by_address k.system_address srv.players ≡ some p
      → find_by_address p.address srv.players ≡ some p
  found p e =
      subst (λ a. find_by_address a srv.players ≡ some p)
        (sym (find-address k.system_address srv.players e)) e

  create-Keeps : Keeps srv (handle_create_net_player s srv k)
  unfolding announce
  create-Keeps =
      create_cases s (Keeps srv) srv k (refl, v)
        λ p e _. (
          refl,
          Fits-replace srv.config.max_players p.address _ srv.players (found p e)
              (record { same_id = refl; same_address = refl }) v,
        )

  movement-Keeps : Keeps srv (handle_player_movement s srv k)
  unfolding relay_movement
  movement-Keeps =
      movement_cases s (Keeps srv) srv k (refl, v)
        λ p e _. (
          refl,
          Fits-replace srv.config.max_players p.address _ srv.players (found p e)
              (record { same_id = refl; same_address = refl }) v,
        )

  rotation-Keeps : Keeps srv (handle_player_rotation s srv k)
  unfolding relay_rotation
  rotation-Keeps =
      rotation_cases s (Keeps srv) srv k (refl, v)
        λ p e _. (
          refl,
          Fits-replace srv.config.max_players p.address _ srv.players (found p e)
              (record { same_id = refl; same_address = refl }) v,
        )

  drop-Keeps : Keeps srv (handle_drop s srv k)
  unfolding remove_player
  drop-Keeps =
      drop_cases s (Keeps srv) srv k (refl, v)
        λ p _. (refl, Fits-remove srv.config.max_players p.network_id srv.players v)

  handle-Keeps : (kind : Kind) (now : ℕ) → Keeps srv (handle s kind srv k now)
  unfolding handle
  handle-Keeps connection now = connection-Keeps now
  handle-Keeps create now = create-Keeps
  handle-Keeps movement now = movement-Keeps
  handle-Keeps rotation now = rotation-Keeps
  handle-Keeps drop now = drop-Keeps
  handle-Keeps other now = (refl, v)

pub accept_rate-Same : (p : Player) (now : ℕ) → Same p (accept_rate (touch p now) now).0
unfolding accept_rate
accept_rate-Same p now = record { same_id = ground arith; same_address = ground arith }

persist_if_due-Inv :
    (can_open : Bool) (checked kept : ℕ) (srv : Server)
    → Inv srv
    → Inv (persist_if_due can_open checked kept srv).0
unfolding persist_if_due persist_anchor
persist_if_due-Inv can_open checked kept srv v = ground arith

module _ (s : BitStream) where
  receive_from-Keeps :
      (srv : Server) (a : Arrival) {o : Option Player}
      → Inv srv
      → find_by_address a.packet.system_address srv.players ≡ o
      → Keeps srv (receive_from s srv a o)
  unfolding receive_from
  receive_from-Keeps srv a {o = none} v e =
      handle-Keeps s srv a.packet v (kind_of a.packet.id) a.handled_at_ms
  receive_from-Keeps srv a {o = some p} v e =
      if_cases (Keeps srv) (accept_rate (touch p a.at_ms) a.at_ms).1
        (λ _. handle-Keeps s _ a.packet kept (kind_of a.packet.id) a.handled_at_ms)
        (λ _. (refl, kept))
    where
      kept : Fits srv.config.max_players (
          replace_by_address a.packet.system_address
            (accept_rate (touch p a.at_ms) a.at_ms).0
            srv.players)
      kept =
          Fits-replace srv.config.max_players a.packet.system_address _ srv.players e
            (accept_rate-Same p a.at_ms) v

  pub receive-Keeps : (srv : Server) (a : Arrival) → Inv srv → Keeps srv (receive s srv a)
  unfolding receive
  receive-Keeps srv a v = receive_from-Keeps srv a v refl

  -- Whatever packet arrives, and whoever sends it: afterwards no two players share an id or an
  -- address, no more than `max_players` are connected, and their ids lie between 1 and that number.
  pub receive-Inv : (srv : Server) (a : Arrival) → Inv srv → Inv (receive s srv a).0
  receive-Inv srv a v = let (c, f) = receive-Keeps srv a v in rw c f

  receive_all-Inv : (srv : Server) (l : List Arrival) → Inv srv → Inv (receive_all s srv l).0
  unfolding receive_all
  receive_all-Inv srv [] v = v
  receive_all-Inv srv (a ∷ l) v = receive_all-Inv (receive s srv a).0 l (receive-Inv srv a v)

  pub tick-Inv :
      (srv : Server) (l : List Arrival) (can_open : Bool) (checked kept : ℕ)
      → Inv srv
      → Inv (tick s srv l can_open checked kept).0
  unfolding tick
  tick-Inv srv l can_open checked kept v =
      if_cases {A = Server × List Effect} (λ r. Inv r.0) (not srv.running) (λ _. v)
        (λ _. persist_if_due-Inv can_open checked kept _ (receive_all-Inv srv l v))

Fits-empty : (max : ℕ) → Fits max []
Fits-empty max = record {
  distinct_ids = tt;
  distinct_addresses = tt;
  few = omega arith;
  in_range = tt;
}

pub stop-Inv :
    (s : BitStream) (can_open : Bool) (srv : Server) → Inv srv → Inv (stop s can_open srv).0
unfolding stop
stop-Inv s can_open srv v =
    if_cases {A = Server × List Effect} (λ r. Inv r.0) (not srv.running) (λ _. v)
      (λ _. Fits-empty _)

load-players :
    (file : Option Vec3) (srv : Server) → (load_persisted_anchor file srv).players ≡ srv.players
unfolding load_persisted_anchor
load-players file srv = ground arith

start-players :
    (has_peer started : Bool) (now : ℕ) (file : Option Vec3) (c : Config)
    → (start has_peer started now file (new_server c)).0.players ≡ []
unfolding start
start-players has_peer started now file c = ground (arith, load-players file)

pub start-Inv :
    (has_peer started : Bool) (now : ℕ) (file : Option Vec3) (c : Config)
    → Inv (start has_peer started now file (new_server c)).0
start-Inv has_peer started now file c =
    let max : ℕ = (start has_peer started now file (new_server c)).0.config.max_players in
    subst (Fits max) (sym (start-players has_peer started now file c)) (Fits-empty max)

-- What the main program calls, in any order: Tick with its packets and clock readings, or Stop.
pub data Call : Type 0 where
  ticks : (arrivals : List Arrival) (can_open : Bool) (checked_ms kept_ms : ℕ) → Call
  stops : (can_open : Bool) → Call

module _ (s : BitStream) where
  unfoldable pub call : Server → Call → Server
  call srv (ticks l can_open checked kept) = (tick s srv l can_open checked kept).0
  call srv (stops can_open) = (stop s can_open srv).0

  unfoldable pub life : Server → List Call → Server
  life srv [] = srv
  life srv (c ∷ cs) = life (call srv c) cs

  life-Inv : (srv : Server) (cs : List Call) → Inv srv → Inv (life srv cs)
  unfolding life call
  life-Inv srv [] v = v
  life-Inv srv (ticks l can_open checked kept ∷ cs) v =
      life-Inv (call srv (ticks l can_open checked kept)) cs
        (tick-Inv s srv l can_open checked kept v)
  life-Inv srv (stops can_open ∷ cs) v =
      life-Inv (call srv (stops can_open)) cs (stop-Inv s can_open srv v)

  -- From the start of the server, with any settings and after any ticks and stops with any
  -- packets, no two players share an id or an address, at most max_players are connected, and
  -- every id lies between 1 and max_players, so that no client is ever given the host's id 0.
  pub life-start-Inv :
      (has_peer started : Bool) (now : ℕ) (file : Option Vec3) (c : Config) (cs : List Call)
      → Inv (life (start has_peer started now file (new_server c)).0 cs)
  life-start-Inv has_peer started now file c cs =
      life-Inv _ cs (start-Inv has_peer started now file c)
