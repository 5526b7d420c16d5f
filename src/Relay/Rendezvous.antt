-- ===== src/Relay/Rendezvous.antt =====
-- Config.h promises joining clients the position of the longest-standing player; AnchorPlayer and
-- AllocateNetworkId of Server/src/RelayServer.cpp give them that of the lowest id.
use crossover.Prelude.{
  ℕ, ◌<◌, ◌≡◌, inl, inr, refl, true, false, List, [], ◌∷◌, ◌++◌, length, All, Option, none, some,
  contains, arith,
}
use crossover.Config.{anchor}
use crossover.Wire.Bytes.{BitStream}
use crossover.Wire.Messages.{Entry, IsEntry, create_net_player, write_body}
use crossover.Ids.{free_from}
use crossover.Relay.State.{Player, Server, Packet}
use crossover.Relay.Lookup.{
  ids, find_by_address, replace_by_address, allocate_network_id, first_client_network_id, better,
  anchor_from, anchor_player, spawn_position_for,
}
use crossover.Relay.Handlers.{
  new_player, with_players, spawn_player, admit, announce, handle_connection_notification,
  handle_create_net_player,
}
use crossover.Relay.Invariant.{Inv, InRange}
use crossover.Relay.Anchor.{Within, anchor_player_lem}
use crossover.Relay.Joining.{create_lem}

anchor_from-append :
    (best : Option Player) (ps : List Player) (p : Player)
    → anchor_from best (ps ++ p ∷ []) ≡ better (anchor_from best ps) p
unfolding anchor_from
anchor_from-append best [] p = refl
anchor_from-append best (q ∷ ps) p = anchor_from-append (better best q) ps p

find-append :
    (a : ℕ) (ps : List Player) (p : Player)
    → find_by_address a ps ≡ none
    → p.address ≡ a
    → find_by_address a (ps ++ p ∷ []) ≡ some p
unfolding find_by_address
find-append a [] p h e = ground arith
find-append a (q ∷ ps) p h e = ground (arith, find-append a ps p)

replace-append :
    (a : ℕ) (q : Player) (ps : List Player) (p : Player)
    → find_by_address a ps ≡ none
    → p.address ≡ a
    → replace_by_address a q (ps ++ p ∷ []) ≡ ps ++ q ∷ []
unfolding find_by_address replace_by_address
replace-append a q [] p h e = ground arith
replace-append a q (r ∷ ps) p h e = ground (arith, replace-append a q ps p)

allocates_first :
    (ps : List Player)
    → contains (ids ps) first_client_network_id ≡ false
    → allocate_network_id ps ≡ some first_client_network_id
unfolding allocate_network_id free_from
allocates_first ps h = rw h refl

Within-above :
    (max : ℕ) (ps : List Player) (a : Player)
    → All (InRange max) (ids ps)
    → contains (ids ps) first_client_network_id ≡ false
    → Within a ps
    → first_client_network_id < a.network_id
Within-above max [] a r h w = elim w [ ]
Within-above max (p ∷ ps) a r h (inl e) = ground arith
Within-above max (p ∷ ps) a r h (inr w) = Within-above max ps a r.1 (ground arith) w

-- A newcomer with the first id is preferred to any anchor.
anchor_append_first :
    (max : ℕ) (ps : List Player) (p : Player)
    → All (InRange max) (ids ps)
    → contains (ids ps) first_client_network_id ≡ false
    → p.network_id ≡ first_client_network_id
    → p.spawned ≡ true
    → anchor_player (ps ++ p ∷ []) ≡ some p
unfolding anchor_player better
anchor_append_first max ps p r h i w =
    rw (anchor_from-append none ps p) (elim (anchor_player_lem ps) [
      | inl (e, _) ↦ rw e (rw w refl)
      | inr (a, e, _, m, _) ↦ rw e (ground (arith, Within-above max ps a r h m))
    ])

connection_lem :
    (s : BitStream) (srv : Server) (k : Packet) (now i : ℕ)
    → find_by_address k.system_address srv.players ≡ none
    → length srv.players < srv.config.max_players
    → allocate_network_id srv.players ≡ some i
    → handle_connection_notification s srv k now ≡ admit s srv k now (some i)
unfolding handle_connection_notification
connection_lem s srv k now i e room found =
    rw (e, handle_connection_notification) (rw found (ground arith))

-- If nobody has id 1 any more, in a well-formed server in anchor mode with room for one more,
-- whoever joins next and enters the world is the place where later clients spawn, although the
-- other players have been there for longer. The numbers in its message are 32-bit.
pub newcomer_becomes_anchor :
    (s : BitStream) (srv : Server) (k k' : Packet) (now : ℕ) (e : Entry)
    → Inv srv
    → srv.config.spawn_mode ≡ anchor
    → find_by_address k.system_address srv.players ≡ none
    → length srv.players < srv.config.max_players
    → contains (ids srv.players) first_client_network_id ≡ false
    → k'.system_address ≡ k.system_address
    → IsEntry e
    → k'.body ≡ write_body s (create_net_player e)
    → spawn_position_for
        (handle_create_net_player s (handle_connection_notification s srv k now).0 k').0
      ≡ e.position
unfolding spawn_position_for admit announce
newcomer_becomes_anchor s srv k k' now e v mode new room free same h body =
    rw
      (
        connection_lem s srv k now first_client_network_id new room
            (allocates_first srv.players free),
        create_lem s joined k' p e joined_known h body,
        mode,
        replace-append k.system_address (spawn_player p e) srv.players p new refl,
        anchor_append_first srv.config.max_players srv.players (spawn_player p e) v.in_range free
            refl refl,
      )
      refl
  where
    p : Player
    p = new_player k first_client_network_id now

    joined : Server
    joined = with_players srv (srv.players ++ p ∷ [])

    joined_known : find_by_address k'.system_address joined.players ≡ some p
    joined_known = rw same (find-append k.system_address srv.players p new refl)
