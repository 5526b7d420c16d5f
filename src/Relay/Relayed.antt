-- ===== src/Relay/Relayed.antt =====
-- The handlers of Server/src/RelayServer.cpp for movement, rotation, spawn and drop, seen from the
-- players that hear of them.
use crossover.Prelude.{
  ℕ, suc, ◌≡◌, ◌≢◌, refl, ap, ◌∙◌, true, List, [], ◌∷◌, length, some, if◌then◌else◌, IsDistinct,
  arith,
}
use crossover.Wire.Bytes.{BitStream, IsWord, IsVec, Vec3}
use crossover.Wire.Messages.{
  player_movement, player_rotation, write_body, read_motion, size_player_movement,
  size_player_rotation,
}
use crossover.Wire.RoundTrip.{length-write_body, read_motion-movement, read_motion-rotation}
use crossover.Relay.State.{
  Player, Server, Packet, Reliability, unreliable_sequenced, Effect, payload,
}
use crossover.Relay.Lookup.{addresses, find_by_address, replace_by_address}
use crossover.Relay.Sending.{relay_except}
use crossover.Relay.Handlers.{
  with_players, relay_movement, relay_rotation, handle_player_movement, handle_player_rotation,
}
use crossover.Relay.Members.{find-address, Same, addresses-replace, find-replace}
use crossover.Relay.Invariant.{Inv}
use crossover.Relay.Delivery.{inbox, inbox-relay_except, find-ids_ne, find-replace_ne}

-- One copy, for a player in the world.
abbrev pub if_in_world : Player → List ℕ → Reliability → List (List ℕ × Reliability)
if_in_world q bytes r = if q.spawned then (bytes, r) ∷ [] else []

-- After a packet from the player at address `a`: that player is `self'` and hears nothing, and the
-- player `q` at address `b` stays as it was and, if it is in the world, gets one copy of `bytes`.
pub record Relayed (a b : ℕ) (self' q : Player) (bytes : List ℕ) (reliability : Reliability)
    (r : Server × List Effect) : Type 0 where
  pub updated : find_by_address a r.0.players ≡ some self'
  pub not_echoed : inbox a r.1 ≡ []
  pub kept : find_by_address b r.0.players ≡ some q
  pub delivered : inbox b r.1 ≡ if_in_world q bytes reliability

-- The sender `self` and another player `q`, as the server finds them.
module _ (srv : Server) (a b : ℕ) (self q : Player) (v : Inv srv)
    (known : find_by_address a srv.players ≡ some self)
    (known' : find_by_address b srv.players ≡ some q) (ne : a ≢ b) where
  here : self.address ≡ a
  here = find-address a srv.players known

  -- Writing the sender back and relaying to all but its id.
  pub relay_lem :
      (self' : Player) (bytes : List ℕ) (r : Reliability)
      → Same self self'
      → Relayed a b self' q bytes r (
        with_players srv (replace_by_address self.address self' srv.players),
        relay_except self.network_id bytes r (replace_by_address self.address self' srv.players),
      )
  relay_lem self' bytes r e = rw here (record {
    updated = updated;
    not_echoed =
        inbox-relay_except a self.network_id bytes r ps self' distinct updated ∙ ground arith;
    kept = kept;
    delivered =
        inbox-relay_except b self.network_id bytes r ps q distinct kept
        ∙ ground (arith, find-ids_ne a b srv.players self q v.distinct_ids known known' ne);
  })
    where
      ps : List Player
      ps = replace_by_address a self' srv.players

      distinct : IsDistinct (addresses ps)
      distinct = rw (addresses-replace a self' srv.players known e) v.distinct_addresses

      there : self'.address ≡ a
      there = ground (arith, here)

      updated : find_by_address a ps ≡ some self'
      updated = find-replace a self' srv.players known there

      kept : find_by_address b ps ≡ some q
      kept = find-replace_ne a b self' srv.players ne there ∙ known'

-- Past the guards, the two motion handlers relay what they read.
pub movement_lem :
    (s : BitStream) (srv : Server) (k : Packet) (self : Player)
    → find_by_address k.system_address srv.players ≡ some self
    → self.spawned ≡ true
    → suc (length k.body) ≡ size_player_movement
    → handle_player_movement s srv k ≡ relay_movement s srv self (read_motion s k.body)
unfolding handle_player_movement
movement_lem s srv k self known in_world long = ground arith

rotation_lem :
    (s : BitStream) (srv : Server) (k : Packet) (self : Player)
    → find_by_address k.system_address srv.players ≡ some self
    → self.spawned ≡ true
    → suc (length k.body) ≡ size_player_rotation
    → handle_player_rotation s srv k ≡ relay_rotation s srv self (read_motion s k.body)
unfolding handle_player_rotation
rotation_lem s srv k self known in_world long = ground arith

module _ (s : BitStream) (srv : Server) (k : Packet) (b : ℕ) (self q : Player) (v : Inv srv)
    (known : find_by_address k.system_address srv.players ≡ some self)
    (known' : find_by_address b srv.players ≡ some q) (ne : k.system_address ≢ b) where
  -- A movement message of a player in the world, whatever id it claims: the server remembers the
  -- position, sends nothing back, and sends each other player in the world exactly one copy, under
  -- the id that the server assigned, unreliable and sequenced; players not in the world get none.
  -- The server is well formed and the numbers in the message are 32-bit.
  pub handle_player_movement_relays :
      (claimed : ℕ) (position acceleration : Vec3)
      → self.spawned ≡ true
      → IsWord claimed
      → IsVec position
      → IsVec acceleration
      → k.body ≡ write_body s (player_movement claimed position acceleration)
      → Relayed k.system_address b
          (record self { position = position })
          q
          (payload s (player_movement self.network_id position acceleration))
          unreliable_sequenced
          (handle_player_movement s srv k)
  unfolding relay_movement
  handle_player_movement_relays claimed p a in_world hi hp ha e =
      rw
        (
          movement_lem s srv k self known in_world (
              ap (λ (l : List ℕ). suc (length l)) e
              ∙ length-write_body s (player_movement claimed p a)),
          e,
          read_motion-movement s claimed p a hi hp ha,
        )
        (relay_lem srv k.system_address b self q v known known' ne (record self { position = p })
          (payload s (player_movement self.network_id p a)) unreliable_sequenced
          (record { same_id = refl; same_address = refl }))

  -- A rotation message of a player in the world, whatever id it claims: the server remembers the
  -- up and forward vectors, sends nothing back, and sends each other player in the world exactly
  -- one copy, under the id that the server assigned, unreliable and sequenced; players not in the
  -- world get none. The server is well formed and the numbers in the message are 32-bit.
  pub handle_player_rotation_relays :
      (claimed : ℕ) (up forward : Vec3)
      → self.spawned ≡ true
      → IsWord claimed
      → IsVec up
      → IsVec forward
      → k.body ≡ write_body s (player_rotation claimed up forward)
      → Relayed k.system_address b
          (record self { up = up; forward = forward })
          q
          (payload s (player_rotation self.network_id up forward))
          unreliable_sequenced
          (handle_player_rotation s srv k)
  unfolding relay_rotation
  handle_player_rotation_relays claimed u f in_world hi hu hf e =
      rw
        (
          rotation_lem s srv k self known in_world (
              ap (λ (l : List ℕ). suc (length l)) e
              ∙ length-write_body s (player_rotation claimed u f)),
          e,
          read_motion-rotation s claimed u f hi hu hf,
        )
        (relay_lem srv k.system_address b self q v known known' ne
          (record self { up = u; forward = f }) (payload s (player_rotation self.network_id u f))
          unreliable_sequenced (record { same_id = refl; same_address = refl }))
