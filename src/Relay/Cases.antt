-- ===== src/Relay/Cases.antt =====
-- Each handler by its outcomes, the guards of Server/src/RelayServer.cpp being its hypotheses.
use crossover.Prelude.{
  ℕ, ◌≡◌, ◌≤◌, ◌<◌, true, not, List, [], ◌∷◌, length, none, some, leb, ltb, Option-cases,
  Bool-cases, if_cases, not-false, inl, inr, arith,
}
use crossover.Ids.{IsLowestFree}
use crossover.Wire.Bytes.{BitStream}
use crossover.Wire.Messages.{
  size_create_net_player, size_player_movement, size_player_rotation, read_entry, read_motion,
}
use crossover.Relay.State.{Player, Server, Packet, Effect, close_connection}
use crossover.Relay.Lookup.{ids, find_by_address, first_client_network_id}
use crossover.Relay.Handlers.{
  packet_length, admit, handle_connection_notification, spawn_player, announce,
  handle_create_net_player, relay_movement, relay_rotation, handle_player_movement,
  handle_player_rotation, remove_player, handle_drop,
}
use crossover.Relay.Members.{allocate_network_id_lem}

module _ {ℓ} (s : BitStream) (P : Server × List Effect → Type ℓ) (srv : Server) (k : Packet) where
  open k use {system_address}

  pub connection_cases :
      (now : ℕ)
      → P (srv, [])
      → P (srv, (close_connection system_address) ∷ [])
      → ((i : ℕ)
          → find_by_address system_address srv.players ≡ none
          → length srv.players < srv.config.max_players
          → IsLowestFree first_client_network_id (ids srv.players) i
          → P (admit s srv k now (some i)))
      → P (handle_connection_notification s srv k now)
  unfolding handle_connection_notification
  connection_cases now known full fresh =
      elim (Option-cases (find_by_address system_address srv.players)) [
        | inr (p, e) ↦ rw (e, handle_connection_notification) known
        | inl e ↦ elim (Bool-cases (leb srv.config.max_players (length srv.players))) [
          | inl full? ↦ rw (e, handle_connection_notification) (rw full? full)
          | inr room ↦
              let (i, found, low) = allocate_network_id_lem srv.players in
              rw (e, handle_connection_notification)
                (rw (room, found) (fresh i e (ground arith) low))
        ]
      ]

  pub create_cases :
      P (srv, [])
      → ((self : Player)
          → find_by_address system_address srv.players ≡ some self
          → size_create_net_player ≤ packet_length k
          → P (announce s srv (spawn_player self (read_entry s 0 k.body).0)))
      → P (handle_create_net_player s srv k)
  unfolding handle_create_net_player
  create_cases ignored spawned = elim (Bool-cases (ltb (packet_length k) size_create_net_player)) [
    | inl short ↦ rw short ignored
    | inr long ↦ rw long (elim (Option-cases (find_by_address system_address srv.players)) [
      | inl e ↦ rw (e, handle_create_net_player) ignored
      | inr (p, e) ↦ rw (e, handle_create_net_player) (spawned p e (ground arith))
    ])
  ]

  pub movement_cases :
      P (srv, [])
      → ((self : Player)
          → find_by_address system_address srv.players ≡ some self
          → self.spawned ≡ true
          → P (relay_movement s srv self (read_motion s k.body)))
      → P (handle_player_movement s srv k)
  unfolding handle_player_movement
  movement_cases ignored moved = elim (Bool-cases (ltb (packet_length k) size_player_movement)) [
    | inl short ↦ rw short ignored
    | inr long ↦ rw long (elim (Option-cases (find_by_address system_address srv.players)) [
      | inl e ↦ rw e ignored
      | inr (p, e) ↦
          rw e (if_cases P (not p.spawned) (λ _. ignored) (λ h. moved p e (not-false p.spawned h)))
    ])
  ]

  pub rotation_cases :
      P (srv, [])
      → ((self : Player)
          → find_by_address system_address srv.players ≡ some self
          → self.spawned ≡ true
          → P (relay_rotation s srv self (read_motion s k.body)))
      → P (handle_player_rotation s srv k)
  unfolding handle_player_rotation
  rotation_cases ignored turned = elim (Bool-cases (ltb (packet_length k) size_player_rotation)) [
    | inl short ↦ rw short ignored
    | inr long ↦ rw long (elim (Option-cases (find_by_address system_address srv.players)) [
      | inl e ↦ rw e ignored
      | inr (p, e) ↦
          rw e (if_cases P (not p.spawned) (λ _. ignored) (λ h. turned p e (not-false p.spawned h)))
    ])
  ]

  pub drop_cases :
      P (srv, [])
      → ((self : Player)
          → find_by_address system_address srv.players ≡ some self
          → P (remove_player s srv self))
      → P (handle_drop s srv k)
  unfolding handle_drop
  drop_cases ignored gone = elim (Option-cases (find_by_address system_address srv.players)) [
    | inl e ↦ rw (e, handle_drop) ignored
    | inr (p, e) ↦ rw (e, handle_drop) (gone p e)
  ]
