-- ===== src/Mod/Teardown.antt =====
-- Leaving a session of the mod: DestroyNetPlayers and Disconnect of Core/Multiplayer.
use crossover.Prelude.{
  ℕ, Bool, true, false, List, [], ◌∷◌, ◌++◌, length, Option, none, some, ◌==◌, ◌≡◌, refl, ap, ◌∙◌,
  if◌then◌else◌, arith, All, IsDistinct, contains,
}
use crossover.Wire.Bytes.{BitStream}
use crossover.Mod.Network.{SystemAddress, Network, Sent}
use crossover.Mod.Engine.{Engine}
use crossover.Mod.Players.{
  NetPlayer, LocalNetPlayer, Hook, Pending, State, get_local_id_from_network_id, local_id_among,
  get_creature_from_local_id, get_creature_from_network_id,
}
use crossover.Mod.Lifecycle.{
  erase_net_player, disembody, destroy_with, destroy_net_player, destroy_each, destroy_net_players,
  broadcast_destroy_net_player, unhook,
}
use crossover.Mod.Local.{leave, leave_creature, destroy_local_net_player}
use crossover.Mod.Session.{goes_on, then_run, of_loop, forget_session, disconnect, with_network}
use crossover.Mod.Tables.{seats}

-- Destroying a player of the game does not touch the others.
pub record Separates {G : Type 0} (e : Engine G) : Type 0 where
  pub others_stay :
      (g : G) (l k : ℕ)
      → (l == k) ≡ false
      → get_creature_from_local_id e (e.uninitialise g l) k ≡ get_creature_from_local_id e g k

-- The player has a creature in the game.
abbrev pub HasCreature : {G : Type 0} → Engine G → G → NetPlayer → Type 0
HasCreature e g p = (c : ℕ) × (get_creature_from_local_id e g p.local_id ≡ some c)

-- The player is not the local one.
abbrev pub IsRemote : LocalNetPlayer → NetPlayer → Type 0
IsRemote l p = (l.network_id == p.network_id) ≡ false

abbrev pub state_of :
    {G : Type 0}
    → G
    → Network
    → LocalNetPlayer
    → List NetPlayer
    → List Hook
    → Option Pending
    → State G
state_of g n l ps hs pending = record {
  game = g;
  network = n;
  players = record { local_net_player = some l; net_players = ps; hooks = hs; pending = pending };
}

pub erase-first :
    (p : NetPlayer) (ps : List NetPlayer) → erase_net_player p.network_id (p ∷ ps) ≡ ps
unfolding erase_net_player
erase-first p ps = ground arith

module _ {G : Type 0} (e : Engine G) (s : BitStream) (n : Network) (l : LocalNetPlayer)
    (pending : Option Pending) where
  seat_of_first :
      (g : G) (p : NetPlayer) (ps : List NetPlayer) (hs : List Hook)
      → IsRemote l p
      → get_local_id_from_network_id (state_of g n l (p ∷ ps) hs pending).players p.network_id
        ≡ p.local_id
  unfolding get_local_id_from_network_id local_id_among
  seat_of_first g p ps hs h = ground arith

  destroy-first :
      (g : G) (p : NetPlayer) (ps : List NetPlayer) (hs : List Hook)
      → IsRemote l p
      → HasCreature e g p
      → (sent : List Sent) × (hs' : List Hook) × (destroy_net_player e s p.network_id
            (state_of g n l (p ∷ ps) hs pending)
          ≡ some (state_of (e.uninitialise g p.local_id) n l ps hs' pending, sent))
  unfolding destroy_net_player destroy_with disembody get_creature_from_network_id
  destroy-first g p ps hs h (c, has) =
      let hs' : List Hook = unhook c p.network_id hs in
      (
        if l.network_id == 0
            then broadcast_destroy_net_player e s p.network_id
                (state_of (e.uninitialise g p.local_id) n l ps hs' pending)
            else [],
        hs',
        rw (seat_of_first g p ps hs h, has, erase-first p ps) refl,
      )

  remain :
      Separates e
      → (g : G) (k : ℕ) (ps : List NetPlayer) → contains (seats ps) k ≡ false
      → All (HasCreature e g) ps
      → All (HasCreature e (e.uninitialise g k)) ps
  remain laws g k [] h v = tt
  remain laws g k (p ∷ ps) h ((c, has), v) = (
    (c, laws.others_stay g k p.local_id (ground arith) ∙ has),
    remain laws g k ps (ground arith) v,
  )

  -- If every player has a creature, no two share a local id and none has the local player's network
  -- id, DestroyNetPlayers takes one round for each player, and none is left.
  pub destroy_each-ends :
      Separates e
      → (g : G) (ps : List NetPlayer) (hs : List Hook) → All (IsRemote l) ps
      → All (HasCreature e g) ps
      → IsDistinct (seats ps)
      → (g' : G) × (hs' : List Hook) × (sent : List Sent) × (destroy_net_players e s
            (length ps)
            (state_of g n l ps hs pending)
          ≡ some (some (state_of g' n l [] hs' pending, sent)))
  unfolding destroy_net_players destroy_each
  destroy_each-ends laws g [] hs r v d = (g, hs, [], refl)
  destroy_each-ends laws g (p ∷ ps) hs r v d =
      let (sent, hs', first) = destroy-first g p ps hs r.0 v.0 in
      let (g'', hs'', more, rest) =
        destroy_each-ends laws (e.uninitialise g p.local_id) ps hs' r.1
          (remain laws g p.local_id ps d.0 v.1) d.1 in
      (g'', hs'', sent ++ more, rw (first, rest) refl)

pub if_true {ℓ} : {A : Type ℓ} (b : Bool) {x : A} (y : A) → b ≡ true → (if b then x else y) ≡ x
if_true true y h = refl
if_true false y h = ground arith

module _ {G : Type 0} (e : Engine G) where
  leave_creature_lem :
      (l : LocalNetPlayer) (st : State G) (c : Option ℕ)
      → ((leave_creature e l st c).players.net_players ≡ st.players.net_players)
        × ((leave_creature e l st c).network ≡ st.network)
  leave_creature_lem l st none = (refl, refl)
  leave_creature_lem l st (some c) = (refl, refl)

  leave_lem :
      (st : State G) (o : Option LocalNetPlayer)
      → ((leave e st o).players.net_players ≡ st.players.net_players)
        × ((leave e st o).network ≡ st.network)
  leave_lem st none = (refl, refl)
  leave_lem st (some l) =
      leave_creature_lem l st (get_creature_from_network_id e st.game st.players l.network_id)

  -- Nobody is left, and nothing is connected.
  abbrev pub Over : State G → Type 0
  Over st =
      (st.players.net_players ≡ []) × (st.network.connections ≡ []) × (st.network.active ≡ false)

  module _ (s : BitStream) (resolve : List ℕ → ℕ → SystemAddress) (bound : SystemAddress) where
    forget_session-Over :
        (st : State G)
        → st.players.net_players ≡ []
        → st.network.active ≡ false
        → Over (forget_session e s resolve bound st)
    unfolding forget_session destroy_local_net_player
    forget_session-Over st h off =
        let st' : State G = with_network st (record (st.network) { connections = [] }) in
        let (a, b) = leave_lem st' st.players.local_net_player in
        (a ∙ h, ap (λ n. n.connections) b, ap (λ n. n.active) b ∙ off)

    -- Disconnect of the mod returns from a session in which every player has a creature, and
    -- nobody is left in it, if the local ids of the players are distinct, none has the local
    -- player's network id, and the game takes out one player at a time.
    pub disconnect-ends :
        (n : Network) (l : LocalNetPlayer) (pending : Option Pending)
        → Separates e
        → (g : G) (ps : List NetPlayer) (hs : List Hook) → n.active ≡ true
        → All (IsRemote l) ps
        → All (HasCreature e g) ps
        → IsDistinct (seats ps)
        → (st : State G) × (sent : List Sent) × (disconnect e s resolve bound
              (state_of g n l ps hs pending)
            ≡ goes_on st sent)
          × Over st
    unfolding disconnect
    disconnect-ends n l pending laws g ps hs on r v d =
        let n' : Network = record n { active = false } in
        let (g', hs', sent, h) = destroy_each-ends e s n' l pending laws g ps hs r v d in
        let st' : State G = state_of g' n' l [] hs' pending in
        (
          forget_session e s resolve bound st',
          sent ++ [],
          if_true n.active _ on
              ∙ ap
                  (λ o. then_run (of_loop o) λ st. goes_on (forget_session e s resolve bound st) [])
                  h,
          forget_session-Over st' refl refl,
        )
