-- ===== src/Mod/Sameness.antt =====
-- The dedicated server (Server/src/RelayServer.cpp) stands in for a host that plays
-- (Core/Multiplayer): both pass a movement on to the same clients.
use crossover.Prelude.{
  ℕ, suc, ◌≤◌, true, List, [], ◌∷◌, map, length, keep, some, ◌≡◌, refl, sym, ap, subst, ◌∙◌, arith,
  All,
}
use crossover.Wire.Bytes.{Vec3, IsWord, IsVec, BitStream}
use crossover.Wire.Messages.{player_movement, write_body}
use crossover.Wire.RoundTrip.{length-write_body, read_motion-movement}
use crossover.Relay.State.{
  Player, Server, Packet, Reliability, unreliable_sequenced, Effect, send, close_connection,
  write_state_file, payload,
}
use crossover.Relay.Lookup.{find_by_address, replace_by_address}
use crossover.Relay.Sending.{relay_except}
use crossover.Relay.Handlers.{relay_movement, handle_player_movement}
use crossover.Relay.Members.{find-address, Same}
use crossover.Relay.Relayed.{movement_lem}
use crossover.Mod.Network.{
  SystemAddress, Connection, Sent, is_other_client, send_each, send_to_all_clients_except,
  address_eq,
}
use crossover.Mod.Players.{State, LocalNetPlayer}
use crossover.Mod.Motion.{pass_on, receive_net_player_movement}

-- The server's sends, as calls of peer->Send.
abbrev pub sends_of : List Effect → List Sent
sends_of [] = []
sends_of (send a bytes r ∷ es) =
    record { address = some a; bytes = bytes; reliability = r } ∷ sends_of es
sends_of (close_connection _ ∷ es) = sends_of es
sends_of (write_state_file _ ∷ es) = sends_of es

-- The connection that a host has for a player of the server.
abbrev pub connection_of : Player → Connection
connection_of p = record { address = some p.address; network_id = p.network_id }

-- In the world, and not under the host's id.
abbrev pub IsClient : Player → Type 0
IsClient p = (p.spawned ≡ true) × (1 ≤ p.network_id)

sends_of-relay_except :
    (i : ℕ) (bytes : List ℕ) (r : Reliability) (ps : List Player)
    → All IsClient ps
    → sends_of (relay_except i bytes r ps)
      ≡ send_each bytes r (keep (is_other_client i) (map connection_of ps))
unfolding relay_except address_eq
sends_of-relay_except i bytes r [] v = refl
sends_of-relay_except i bytes r (p ∷ ps) v = ground (arith, sends_of-relay_except i bytes r ps)

All-replace :
    (a : ℕ) (q : Player) (ps : List Player)
    → All IsClient ps
    → IsClient q
    → All IsClient (replace_by_address a q ps)
unfolding replace_by_address
All-replace a q [] v w = v
All-replace a q (p ∷ ps) v w = ground (arith, All-replace a q ps)

connections-replace :
    (a : ℕ) (q : Player) (ps : List Player) {p : Player}
    → find_by_address a ps ≡ some p
    → Same p q
    → map connection_of (replace_by_address a q ps) ≡ map connection_of ps
unfolding find_by_address replace_by_address
connections-replace a q [] {p} h e = refl
connections-replace a q (r ∷ ps) {p} h e = ground (arith, connections-replace a q ps {p = p})

pass_on-host :
    (s : BitStream) (resolve : List ℕ → ℕ → SystemAddress) {G : Type 0} (st : State G)
    (l : LocalNetPlayer) (c : Connection) (i : ℕ) (at acceleration : Vec3) {cs : List Connection}
    → st.players.local_net_player ≡ some l
    → l.network_id ≡ 0
    → st.network.connections ≡ c ∷ cs
    → c.network_id ≡ 0
    → (receive_net_player_movement s resolve i at acceleration st).1
      ≡ send_each
          (payload s (player_movement i at acceleration))
          unreliable_sequenced
          (keep (is_other_client i) cs)
unfolding receive_net_player_movement pass_on send_to_all_clients_except
pass_on-host s resolve st l c i at acceleration hl h0 hc c0 = ground arith

-- A movement message that a client of the server, in the world, sends under its own id: the server
-- sends it on exactly as a playing host would that has the same clients in the same order, beside
-- itself as number 0. All clients of the server are in the world under ids from 1, and the numbers
-- in the message are 32-bit.
pub handle_player_movement-same :
    (s : BitStream) (resolve : List ℕ → ℕ → SystemAddress) {G : Type 0} (srv : Server) (k : Packet)
    (self : Player) (st : State G) (l : LocalNetPlayer) (c : Connection) (at acceleration : Vec3)
    → All IsClient srv.players
    → find_by_address k.system_address srv.players ≡ some self
    → self.spawned ≡ true
    → IsWord self.network_id
    → IsVec at
    → IsVec acceleration
    → k.body ≡ write_body s (player_movement self.network_id at acceleration)
    → 1 ≤ self.network_id
    → st.players.local_net_player ≡ some l
    → l.network_id ≡ 0
    → st.network.connections ≡ c ∷ map connection_of srv.players
    → c.network_id ≡ 0
    → sends_of (handle_player_movement s srv k).1
      ≡ (receive_net_player_movement s resolve self.network_id at acceleration st).1
unfolding relay_movement
handle_player_movement-same s resolve srv k self st l c at acceleration v known in_world hi hp ha e
      pos hl h0 hc c0 =
    let here : self.address ≡ k.system_address = find-address k.system_address srv.players known in
    let self' : Player = record self { position = at } in
    let bytes : List ℕ = payload s (player_movement self.network_id at acceleration) in
    let same =
      connections-replace self.address self' srv.players {p = self}
        (subst (λ a. find_by_address a srv.players ≡ some self) (sym here) known)
        (record { same_id = refl; same_address = refl }) in
    let relayed = movement_lem s srv k self known in_world (
      ap (λ (b : List ℕ). suc (length b)) e
      ∙ length-write_body s (player_movement self.network_id at acceleration)) in
    rw (relayed, e, read_motion-movement s self.network_id at acceleration hi hp ha)
      (sends_of-relay_except self.network_id bytes unreliable_sequenced
          (replace_by_address self.address self' srv.players)
          (All-replace self.address self' srv.players v (in_world, pos))
        ∙ ap
            (λ cs. send_each bytes unreliable_sequenced (keep (is_other_client self.network_id) cs))
            same
        ∙ sym (pass_on-host s resolve st l c self.network_id at acceleration hl h0 hc c0))
