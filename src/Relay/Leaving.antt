-- ===== src/Relay/Leaving.antt =====
-- HandleDrop of Server/src/RelayServer.cpp: who hears of a player that left.
use crossover.Prelude.{
  ℕ, ◌≡◌, ◌≢◌, refl, false, List, [], ◌∷◌, none, some, if◌then◌else◌, contains, IsDistinct, arith,
  if_cases,
}
use crossover.Wire.Bytes.{BitStream}
use crossover.Wire.Messages.{destroy_net_player}
use crossover.Relay.State.{Player, Server, Packet, reliable_ordered, Effect, payload}
use crossover.Relay.Lookup.{addresses, find_by_address}
use crossover.Relay.Handlers.{remove_by_network_id, remove_player, handle_drop}
use crossover.Relay.Members.{absent-remove, addresses-remove-IsDistinct}
use crossover.Relay.Invariant.{Inv}
use crossover.Relay.Delivery.{inbox, inbox-relay_except, inbox-relay_absent, find-ids_ne}
use crossover.Relay.Relayed.{if_in_world}

find_absent :
    (a : ℕ) (ps : List Player) → contains (addresses ps) a ≡ false → find_by_address a ps ≡ none
unfolding find_by_address
find_absent a [] h = refl
find_absent a (p ∷ ps) h = ground (arith, find_absent a ps)

absent-remove_self :
    (a : ℕ) (ps : List Player) (p : Player)
    → IsDistinct (addresses ps)
    → find_by_address a ps ≡ some p
    → contains (addresses (remove_by_network_id p.network_id ps)) a ≡ false
unfolding find_by_address remove_by_network_id
absent-remove_self a [] p d h = refl
absent-remove_self a (r ∷ ps) p d h =
    ground (arith, absent-remove_self a ps p d.1, absent-remove p.network_id a ps)

find-remove_ne :
    (b i : ℕ) (ps : List Player) (q : Player)
    → find_by_address b ps ≡ some q
    → i ≢ q.network_id
    → find_by_address b (remove_by_network_id i ps) ≡ some q
unfolding find_by_address remove_by_network_id
find-remove_ne b i [] q h ne = cc
find-remove_ne b i (r ∷ ps) q h ne = ground (arith, find-remove_ne b i ps q)

-- After the player `self` at address `a` left, whom `q` at address `b` may have known.
pub record Left (s : BitStream) (a b : ℕ) (self q : Player) (r : Server × List Effect)
    : Type 0 where
  pub gone : find_by_address a r.0.players ≡ none
  pub silent : inbox a r.1 ≡ []
  pub kept : find_by_address b r.0.players ≡ some q
  pub told : inbox b r.1 ≡ (
      if self.spawned
      then if_in_world q (payload s (destroy_net_player self.network_id)) reliable_ordered
      else [])

module _ (s : BitStream) (srv : Server) (k : Packet) (b : ℕ) (self q : Player) (v : Inv srv)
    (known : find_by_address k.system_address srv.players ≡ some self)
    (known' : find_by_address b srv.players ≡ some q) (ne : k.system_address ≢ b) where
  -- When a player of a well-formed server drops, it is gone from the server and hears nothing;
  -- every other player stays, and if both were in the world is told exactly once, reliably, that
  -- the player's id is destroyed.
  pub handle_drop_tells : Left s k.system_address b self q (handle_drop s srv k)
  unfolding handle_drop remove_player
  handle_drop_tells =
      rw (known, handle_drop)
        (record {
          gone = find_absent k.system_address ps absent;
          silent =
              if_cases (λ e. inbox k.system_address e ≡ []) self.spawned
                (λ _. inbox-relay_absent k.system_address i bytes reliable_ordered ps absent)
                (λ _. refl);
          kept = kept;
          told =
              ground
                (arith, inbox-relay_except b i bytes reliable_ordered ps q distinct kept, other);
        })
    where
      i : ℕ
      i = self.network_id

      ps : List Player
      ps = remove_by_network_id i srv.players

      bytes : List ℕ
      bytes = payload s (destroy_net_player i)

      other : i ≢ q.network_id
      other = find-ids_ne k.system_address b srv.players self q v.distinct_ids known known' ne

      absent : contains (addresses ps) k.system_address ≡ false
      absent = absent-remove_self k.system_address srv.players self v.distinct_addresses known

      kept : find_by_address b ps ≡ some q
      kept = find-remove_ne b i srv.players q known' other

      distinct : IsDistinct (addresses ps)
      distinct = addresses-remove-IsDistinct i srv.players v.distinct_addresses
