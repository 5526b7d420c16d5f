-- ===== src/Relay/Joining.antt =====
-- HandleCreateNetPlayer, SendRoster and HandleDrop of Server/src/RelayServer.cpp, seen from the
-- players that hear of them.
use crossover.Prelude.{
  ℕ, suc, ◌≡◌, ◌≢◌, refl, sym, ap, ◌∙◌, subst, Bool, not, List, [], ◌∷◌, map, length, some, ◌==◌,
  if◌then◌else◌, append-nil, keep, ◌&&◌, arith,
}
use crossover.Wire.Bytes.{BitStream}
use crossover.Wire.Messages.{
  create_net_player, create_net_players, Entry, IsEntry, write_body, read_entry,
}
use crossover.Wire.RoundTrip.{length-write_body, read_entry-create_net_player}
use crossover.Relay.State.{Player, Server, Packet, Reliability, reliable_ordered, Effect, payload}
use crossover.Relay.Lookup.{find_by_address, replace_by_address}
use crossover.Relay.Sending.{relay_except, others, entry_of, send_entries, send_roster}
use crossover.Relay.Handlers.{with_players, spawn_player, announce, handle_create_net_player}
use crossover.Relay.Members.{find-address}
use crossover.Relay.Invariant.{Inv}
use crossover.Relay.Delivery.{inbox, inbox-append}
use crossover.Relay.Relayed.{if_in_world, Relayed, relay_lem}

-- The roster that a newcomer with id `i` is sent: one message with everyone else in the world, or
-- nothing if there is nobody.
abbrev pub roster : BitStream → List Player → List (List ℕ × Reliability)
roster s [] = []
roster s (p ∷ ps) = (payload s (create_net_players (map entry_of (p ∷ ps))), reliable_ordered) ∷ []

unfoldable pub in_world_except : ℕ → Player → Bool
in_world_except i p = not (p.network_id == i) && p.spawned

others-eq-keep : (i : ℕ) (ps : List Player) → others i ps ≡ keep (in_world_except i) ps
unfolding others in_world_except
others-eq-keep i [] = refl
others-eq-keep i (p ∷ ps) = ground (arith, others-eq-keep i ps)

others-replace :
    (a : ℕ) (q : Player) (ps : List Player) (p : Player)
    → find_by_address a ps ≡ some p
    → q.network_id ≡ p.network_id
    → others p.network_id (replace_by_address a q ps) ≡ others p.network_id ps
unfolding others replace_by_address find_by_address
others-replace a q [] p h e = refl
others-replace a q (r ∷ ps) p h e = ground (arith, others-replace a q ps p)

inbox-send_roster :
    (s : BitStream) (a : ℕ) (to : Player) (ps : List Player)
    → inbox a (send_roster s to ps)
      ≡ (if to.address == a then roster s (others to.network_id ps) else [])
unfolding send_roster
inbox-send_roster s a to ps = inbox-entries (others to.network_id ps)
  where
    inbox-entries :
        (l : List Player)
        → inbox a (send_entries s to.address l) ≡ (if to.address == a then roster s l else [])
    inbox-entries [] = ground arith
    inbox-entries (p ∷ l) = ground arith

pub create_lem :
    (s : BitStream) (srv : Server) (k : Packet) (self : Player) (e : Entry)
    → find_by_address k.system_address srv.players ≡ some self
    → IsEntry e
    → k.body ≡ write_body s (create_net_player e)
    → handle_create_net_player s srv k ≡ announce s srv (spawn_player self e)
unfolding handle_create_net_player
create_lem s srv k self e known h body = ground (
  arith,
  ap (λ (l : List ℕ). suc (length l)) body,
  length-write_body s (create_net_player e),
  ap (read_entry s 0) body,
  read_entry-create_net_player s 0 e h,
)

-- After a spawn message of the player at address `a`, whom `q` at address `b` may hear of.
pub record Announced (s : BitStream) (a b : ℕ) (self' q : Player) (players : List Player)
    (r : Server × List Effect) : Type 0 where
  pub updated : find_by_address a r.0.players ≡ some self'
  pub kept : find_by_address b r.0.players ≡ some q
  pub roster_sent : inbox a r.1 ≡ roster s (keep (in_world_except self'.network_id) players)
  pub announced :
      inbox b r.1 ≡ if_in_world q (payload s (create_net_player (entry_of self'))) reliable_ordered

module _ (s : BitStream) (srv : Server) (k : Packet) (b : ℕ) (self q : Player) (v : Inv srv)
    (known : find_by_address k.system_address srv.players ≡ some self)
    (known' : find_by_address b srv.players ≡ some q) (ne : k.system_address ≢ b) where
  -- A spawn message of a connected player, whatever id it claims: the server puts the player in
  -- the world with the definition and position it sent, tells each other player in the world once
  -- about it, under the id that the server assigned, and sends the newcomer one roster of exactly
  -- the other players in the world, or none if there is nobody; all of it reliable and ordered.
  -- The server is well formed and the numbers in the message are 32-bit.
  pub handle_create_net_player_announces :
      (e : Entry)
      → IsEntry e
      → k.body ≡ write_body s (create_net_player e)
      → Announced s k.system_address b
          (spawn_player self e)
          q
          srv.players
          (handle_create_net_player s srv k)
  unfolding announce
  handle_create_net_player_announces e h body =
      rw (create_lem s srv k self e known h body) (record {
        updated = relayed.updated;
        kept = relayed.kept;
        roster_sent =
            inbox-append k.system_address first (send_roster s self' ps)
            ∙ ground (
              arith,
              relayed.not_echoed,
              inbox-send_roster s k.system_address self' ps,
              find-address k.system_address srv.players known,
              others-replace self.address self' srv.players self found refl,
              others-eq-keep self.network_id srv.players,
            );
        announced =
            inbox-append b first (send_roster s self' ps)
            ∙ ground (
              arith,
              relayed.delivered,
              inbox-send_roster s b self' ps,
              find-address k.system_address srv.players known,
              append-nil (inbox b first),
            );
      })
    where
      self' : Player
      self' = spawn_player self e

      ps : List Player
      ps = replace_by_address self.address self' srv.players

      first : List Effect
      first =
          relay_except self.network_id (payload s (create_net_player (entry_of self')))
            reliable_ordered ps

      found : find_by_address self.address srv.players ≡ some self
      found =
          subst (λ x. find_by_address x srv.players ≡ some self)
            (sym (find-address k.system_address srv.players known)) known

      relayed :
          Relayed k.system_address b self' q
            (payload s (create_net_player (entry_of self')))
            reliable_ordered
            (with_players srv ps, first)
      relayed =
          relay_lem srv k.system_address b self q v known known' ne self'
            (payload s (create_net_player (entry_of self'))) reliable_ordered
            (record { same_id = refl; same_address = refl })
