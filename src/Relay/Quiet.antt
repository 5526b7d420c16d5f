-- ===== src/Relay/Quiet.antt =====
-- RelayServer.h: "Nothing is relayed to a player until it is true", of `spawned`.
use crossover.Prelude.{
  ℕ, ◌≡◌, ◌⊎◌, inl, inr, refl, sym, subst, Bool, true, false, not, ◌||◌, ◌&&◌, ◌==◌, List, [], ◌∷◌,
  All, All-append, Option, none, some, arith, if_cases,
}
use crossover.Wire.Bytes.{BitStream, Vec3}
use crossover.Wire.Messages.{create_local_net_player, read_entry}
use crossover.Relay.State.{
  Player, Server, Packet, Arrival, Reliability, Effect, send, close_connection, write_state_file,
  payload,
}
use crossover.Relay.Lookup.{find_by_address, replace_by_address}
use crossover.Relay.Sending.{relay_except, send_entries, send_roster}
use crossover.Relay.Handlers.{
  admit, announce, spawn_player, relay_movement, relay_rotation, remove_player,
}
use crossover.Relay.Session.{
  Kind, connection, create, movement, rotation, drop, other, kind_of, accept_rate, touch, handle,
  receive_from, receive,
}
use crossover.Relay.Members.{find-address, find-replace}
use crossover.Relay.Cases.{
  connection_cases, create_cases, movement_cases, rotation_cases, drop_cases,
}

-- A player in the world has the address.
abbrev pub spawned_at : ℕ → List Player → Bool
spawned_at a [] = false
spawned_at a (p ∷ ps) = (p.address == a && p.spawned) || spawned_at a ps

-- A send goes to a player in the world, or tells the packet's own sender its id and spawn point;
-- a connection is closed only on the packet's own sender; no file is written.
abbrev pub IsQuiet : BitStream → List Player → ℕ → Effect → Type 0
IsQuiet s ps a (send to bytes r) =
    (spawned_at to ps ≡ true)
    ⊎ ((i : ℕ) × (v : Vec3) × (to ≡ a) × (bytes ≡ payload s (create_local_net_player i v)))
IsQuiet s ps a (close_connection to) = to ≡ a
IsQuiet s ps a (write_state_file v) = ⊥

abbrev Known : List Player → Player → Type 0
Known ps p = (not p.spawned || spawned_at p.address ps) ≡ true

Known-cons : (q : Player) (ps qs : List Player) → All (Known ps) qs → All (Known (q ∷ ps)) qs
Known-cons q ps [] h = tt
Known-cons q ps (p ∷ qs) h = (ground (arith, h.0), Known-cons q ps qs h.1)

Known-self : (ps : List Player) → All (Known ps) ps
Known-self [] = tt
Known-self (p ∷ ps) = (ground arith, Known-cons p ps ps (Known-self ps))

spawned_at-find :
    (a : ℕ) (ps : List Player) (p : Player)
    → find_by_address a ps ≡ some p
    → p.spawned ≡ true
    → spawned_at a ps ≡ true
unfolding find_by_address
spawned_at-find a [] p h w = cc
spawned_at-find a (q ∷ ps) p h w = ground (arith, spawned_at-find a ps p)

module _ (s : BitStream) where
  relay-IsQuiet :
      (all : List Player) (a i : ℕ) (bytes : List ℕ) (r : Reliability) (ps : List Player)
      → All (Known all) ps
      → All (IsQuiet s all a) (relay_except i bytes r ps)
  unfolding relay_except
  relay-IsQuiet all a i bytes r [] h = tt
  relay-IsQuiet all a i bytes r (p ∷ ps) h =
      if_cases (All (IsQuiet s all a)) (p.network_id == i || not p.spawned)
        (λ _. relay-IsQuiet all a i bytes r ps h.1)
        (λ t. (inl (ground (arith, h.0)), relay-IsQuiet all a i bytes r ps h.1))

  entries-IsQuiet :
      (all : List Player) (a to : ℕ) (ps : List Player)
      → spawned_at to all ≡ true
      → All (IsQuiet s all a) (send_entries s to ps)
  unfolding send_entries
  entries-IsQuiet all a to [] h = tt
  entries-IsQuiet all a to (p ∷ ps) h = (inl h, tt)

  abbrev Result : ℕ → Server × List Effect → Type 0
  Result a r = All (IsQuiet s r.0.players a) r.1

  relayed :
      (a i : ℕ) (bytes : List ℕ) (r : Reliability) (ps : List Player)
      → All (IsQuiet s ps a) (relay_except i bytes r ps)
  relayed a i bytes r ps = relay-IsQuiet ps a i bytes r ps (Known-self ps)

  announced :
      (srv : Server) (a : ℕ) (self self' : Player)
      → find_by_address self'.address srv.players ≡ some self
      → self'.spawned ≡ true
      → Result a (announce s srv self')
  unfolding announce send_roster
  announced srv a self self' h w =
      let ps : List Player = replace_by_address self'.address self' srv.players in
      All-append (IsQuiet s ps a) _ _ (relayed a _ _ _ ps) (
        entries-IsQuiet ps a self'.address _ (
          spawned_at-find self'.address ps self'
            (find-replace self'.address self' srv.players h refl) w))

  handled :
      (kind : Kind) (srv : Server) (k : Packet) (now : ℕ)
      → Result k.system_address (handle s kind srv k now)
  unfolding handle admit relay_movement relay_rotation remove_player
  handled connection srv k now =
      connection_cases s (Result k.system_address) srv k now tt (refl, tt)
        λ i e room low. (inr (i, _, refl, refl), tt)
  handled create srv k now = create_cases s (Result k.system_address) srv k tt λ p e _.
      announced srv k.system_address p (spawn_player p (read_entry s 0 k.body).0)
        (subst (λ a. find_by_address a srv.players ≡ some p)
          (sym (find-address k.system_address srv.players e)) e)
        refl
  handled movement srv k now =
      movement_cases s (Result k.system_address) srv k tt λ p e w. relayed k.system_address _ _ _ _
  handled rotation srv k now =
      rotation_cases s (Result k.system_address) srv k tt λ p e w. relayed k.system_address _ _ _ _
  handled drop srv k now = drop_cases s (Result k.system_address) srv k tt λ p e.
      if_cases (All (IsQuiet s _ k.system_address)) p.spawned
        (λ _. relayed k.system_address _ _ _ _) (λ _. tt)
  handled other srv k now = tt

  -- Whatever packet arrives, everything that the server sends goes to a player that is then in the
  -- world, save for the one message that tells the packet's own sender its id and spawn point; the
  -- only connection that is closed is the sender's, and no file is written.
  pub receive-IsQuiet :
      (srv : Server) (a : Arrival)
      → All (IsQuiet s (receive s srv a).0.players a.packet.system_address) (receive s srv a).1
  unfolding receive receive_from
  receive-IsQuiet srv a = from srv a (find_by_address a.packet.system_address srv.players)
    where
      from :
          (srv : Server) (a : Arrival) (o : Option Player)
          → Result a.packet.system_address (receive_from s srv a o)
      from srv a none = handled (kind_of a.packet.id) srv a.packet a.handled_at_ms
      from srv a (some p) =
          if_cases (Result a.packet.system_address) (accept_rate (touch p a.at_ms) a.at_ms).1
            (λ _. handled (kind_of a.packet.id) _ a.packet a.handled_at_ms) (λ _. tt)
