-- ===== src/Mod/Duplicates.antt =====
-- How often a network id stands in the tables of the mod (Core/Multiplayer): CreateNetPlayer does not
-- ask whether it has the player already, and one DestroyNetPlayer takes out one.
use crossover.Prelude.{
  ℕ, zero, suc, Bool, true, false, List, [], ◌∷◌, ◌++◌, map, Option, none, some, ◌==◌, ◌≡◌, refl,
  ◌∙◌, ap, arith, count, append-nil, if◌then◌else◌,
}
use crossover.Wire.Bytes.{BitStream, read_int-write_int}
use crossover.Wire.Messages.{Entry, Message, write_body, read_entry, IsEntry}
use crossover.Wire.RoundTrip.{read_entry-create_net_player}
use crossover.Relay.State.{Packet}
use crossover.Mod.Network.{SystemAddress, Sent, no_id}
use crossover.Mod.Engine.{Engine}
use crossover.Mod.Players.{
  NetPlayer, LocalNetPlayer, Axis, movement, facing, State, Outcome, get_local_id_from_network_id,
  get_creature_from_network_id,
}
use crossover.Mod.Motion.{hooked, hook_creature}
use crossover.Mod.Lifecycle.{
  new_net_player, announce_created, embody, create_with, create_net_player, erase_net_player,
  announce_destroyed, disembody, destroy_with, destroy_net_player,
}
use crossover.Mod.Session.{
  Ending, goes_on, of_outcome, Role, create_one, destroys, event_of, handle_event, handle_all,
}
use crossover.Mod.Tables.{get_free_local_id_lem}

abbrev pub ids_of : List NetPlayer → List ℕ
ids_of = map λ p. p.network_id

-- How many players of the others have the id.
abbrev pub copies : {G : Type 0} → ℕ → State G → ℕ
copies i st = count i (ids_of st.players.net_players)

-- The call goes on, the local player is still `l`, and of the id there are exactly `n` players.
abbrev pub Has : {G : Type 0} → LocalNetPlayer → ℕ → ℕ → Outcome G → Type 0
Has l i n none = ⊥
Has l i n (some (st, _)) = (st.players.local_net_player ≡ some l) × (copies i st ≡ n)

count-append_one :
    (i : ℕ) (ps : List NetPlayer) (p : NetPlayer)
    → count i (ids_of (ps ++ p ∷ []))
      ≡ (if i == p.network_id then suc (count i (ids_of ps)) else count i (ids_of ps))
count-append_one i [] p = refl
count-append_one i (q ∷ ps) p = ground (arith, count-append_one i ps p)

count-erase :
    (i n : ℕ) (ps : List NetPlayer)
    → count i (ids_of ps) ≡ suc n
    → count i (ids_of (erase_net_player i ps)) ≡ n
unfolding erase_net_player
count-erase i n [] h = ground arith
count-erase i zero (p ∷ ps) h = ground (arith, count-erase i zero ps)
count-erase i (suc n) (p ∷ ps) h = ground (arith, count-erase i (suc n) ps, count-erase i n ps)

-- How many of `n + 1` players with an id are left by DestroyNetPlayer: without a creature it returns
-- before it erases.
abbrev pub left : ℕ → Option ℕ → ℕ
left n none = suc n
left n (some c) = n

module _ {G : Type 0} (e : Engine G) where
  -- A registered closure changes neither the players nor the local one.
  hooked-players :
      (axis : Axis) (broadcasts : Bool) (i : ℕ) (st : State G) (c : Option ℕ)
      → ((hooked e axis broadcasts i st c).players.net_players ≡ st.players.net_players)
        × ((hooked e axis broadcasts i st c).players.local_net_player ≡ st.players.local_net_player)
  hooked-players axis broadcasts i st none = (refl, refl)
  hooked-players axis broadcasts i st (some c) = (refl, refl)

  hook_creature-players :
      (axis : Axis) (broadcasts : Bool) (i : ℕ) (st : State G)
      → ((hook_creature e axis broadcasts i st).players.net_players ≡ st.players.net_players)
        × ((hook_creature e axis broadcasts i st).players.local_net_player
            ≡ st.players.local_net_player)
  unfolding hook_creature
  hook_creature-players axis broadcasts i st =
      hooked-players axis broadcasts i st (get_creature_from_network_id e st.game st.players i)

  module _ (s : BitStream) where
    embody-players :
        (en : Entry) (seat : ℕ) (st : State G)
        → ((embody e s en seat st).players.net_players
            ≡ st.players.net_players ++ new_net_player en.network_id seat ∷ [])
          × ((embody e s en seat st).players.local_net_player ≡ st.players.local_net_player)
    unfolding embody
    embody-players en seat st =
        let (a, b) = hook_creature-players facing false en.network_id _ in
        let (c, d) = hook_creature-players movement false en.network_id _ in (a ∙ c, b ∙ d)

    announce_created-Has :
        (en : Entry) (st : State G) (l : LocalNetPlayer) (i n : ℕ) (o : Option LocalNetPlayer)
        → o ≡ some l
        → st.players.local_net_player ≡ some l
        → copies i st ≡ n
        → Has l i n (announce_created e s en st o)
    announce_created-Has en st l i n none h k v = absurd (ground arith)
    announce_created-Has en st l i n (some l') h k v = (k, v)

    -- The game makes a player for every local id.
    create_net_player-Has :
        (en : Entry) (st : State G) (l : LocalNetPlayer) (n : ℕ)
        → ((g : G) (seat : ℕ) → e.get_player (e.create_player g seat) seat ≡ true)
        → st.players.local_net_player ≡ some l
        → copies en.network_id st ≡ n
        → Has l en.network_id (suc n) (create_net_player e s en st)
    unfolding create_net_player create_with
    create_net_player-Has en st l n made h v =
        let (seat, eq, low) = get_free_local_id_lem st.players in
        let st' : State G = record st { game = e.create_player st.game seat } in
        let (a, b) = embody-players en seat st' in
        rw (eq, made st.game seat)
          (announce_created-Has en (embody e s en seat st') l en.network_id (suc n)
            st.players.local_net_player h (b ∙ h)
            (rw
              (
                a,
                count-append_one en.network_id st.players.net_players
                    (new_net_player en.network_id seat),
              )
              (ground (arith, v))))

    announce_destroyed-Has :
        (i : ℕ) (st : State G) (l : LocalNetPlayer) (n : ℕ) (o : Option LocalNetPlayer)
        → o ≡ some l
        → st.players.local_net_player ≡ some l
        → copies i st ≡ n
        → Has l i n (announce_destroyed e s i st o)
    announce_destroyed-Has i st l n none h k v = absurd (ground arith)
    announce_destroyed-Has i st l n (some l') h k v = (k, v)

    destroy_with-Has :
        (i : ℕ) (st : State G) (l : LocalNetPlayer) (n seat : ℕ) (c : Option ℕ)
        → st.players.local_net_player ≡ some l
        → copies i st ≡ suc n
        → Has l i (left n c) (destroy_with e s i st seat c)
    unfolding destroy_with disembody
    destroy_with-Has i st l n seat none h v = (h, v)
    destroy_with-Has i st l n seat (some c) h v =
        announce_destroyed-Has i (disembody e s i seat c st) l n st.players.local_net_player h h
          (count-erase i n st.players.net_players v)

    destroy_net_player-Has :
        (i : ℕ) (st : State G) (l : LocalNetPlayer) (n : ℕ)
        → st.players.local_net_player ≡ some l
        → copies i st ≡ suc n
        → Has l i
            (left n (get_creature_from_network_id e st.game st.players i))
            (destroy_net_player e s i st)
    unfolding destroy_net_player
    destroy_net_player-Has i st l n h v =
        destroy_with-Has i st l n (get_local_id_from_network_id st.players i)
          (get_creature_from_network_id e st.game st.players i) h v

-- A call returns with this many players of the id, and the same local player.
abbrev pub Returns : {G : Type 0} → LocalNetPlayer → ℕ → ℕ → Ending G → Type 0
Returns {G} l i n r =
    (st : State G) × (sent : List Sent) × (r ≡ goes_on st sent)
    × (st.players.local_net_player ≡ some l)
    × (copies i st ≡ n)

of_outcome-Returns :
    {G : Type 0} (l : LocalNetPlayer) (i n : ℕ) (o : Outcome G)
    → Has l i n o
    → Returns l i n (of_outcome o)
of_outcome-Returns l i n none v = absurd v
of_outcome-Returns l i n (some (st, sent)) (h, c) = (st, sent, refl, h, c)

module _ {G : Type 0} (e : Engine G) (s : BitStream) (resolve : List ℕ → ℕ → SystemAddress)
    (bound : SystemAddress) (role : Role) (l : LocalNetPlayer) (en : Entry) (is_entry : IsEntry en)
    (made : (g : G) (seat : ℕ) → e.get_player (e.create_player g seat) seat ≡ true) where
  spawned_once :
      (k : Packet) (st : State G) (n : ℕ)
      → event_of k.id ≡ create_one
      → k.body ≡ write_body s (Message.create_net_player en)
      → st.players.local_net_player ≡ some l
      → copies en.network_id st ≡ n
      → Returns l en.network_id (suc n) (handle_event e s resolve bound (event_of k.id) role k st)
  unfolding handle_event
  spawned_once k st n kind body h v =
      let read : (read_entry s (e.unset k.body 0) k.body).0 ≡ en = rw body (
        read_entry-create_net_player s (e.unset (write_body s (Message.create_net_player en)) 0) en
          is_entry) in
      rw (kind, read)
        (of_outcome-Returns l en.network_id (suc n) _
          (create_net_player-Has e s en st l n made h v))

  destroyed_once :
      (k : Packet) (st : State G) (n : ℕ)
      → event_of k.id ≡ destroys
      → k.body ≡ write_body s (Message.destroy_net_player en.network_id)
      → st.players.local_net_player ≡ some l
      → copies en.network_id st ≡ suc n
      → Returns l en.network_id
          (left n (get_creature_from_network_id e st.game st.players en.network_id))
          (handle_event e s resolve bound (event_of k.id) role k st)
  unfolding handle_event write_body
  destroyed_once k st n kind body h v =
      rw
        (
          kind,
          body,
          ap (λ r. r.0) (rw append-nil at (read_int-write_int s no_id en.network_id [] is_entry.0)),
        )
        (of_outcome-Returns l en.network_id _ _
          (destroy_net_player-Has e s en.network_id st l n h v))

  -- If a player's spawn message comes twice, a mod with a local player, which has no player of
  -- that id before, has exactly two of it, and the message that it is destroyed takes out exactly
  -- one if the player has a creature, and none otherwise: a player with that id stays behind. The
  -- game makes a player for every local id, and the numbers in the message are 32-bit.
  pub duplicate_stays :
      (k k' k'' : Packet) (st : State G)
      → st.players.local_net_player ≡ some l
      → copies en.network_id st ≡ 0
      → event_of k.id ≡ create_one
      → k.body ≡ write_body s (Message.create_net_player en)
      → event_of k'.id ≡ create_one
      → k'.body ≡ write_body s (Message.create_net_player en)
      → event_of k''.id ≡ destroys
      → k''.body ≡ write_body s (Message.destroy_net_player en.network_id)
      → (two one : State G) × (sent sent' : List Sent) × (handle_all e s resolve bound role
            (k ∷ k' ∷ [])
            st
          ≡ goes_on two sent)
        × (copies en.network_id two ≡ 2)
        × (handle_all e s resolve bound role (k ∷ k' ∷ k'' ∷ []) st ≡ goes_on one sent')
        × (copies en.network_id one
            ≡ left 1 (get_creature_from_network_id e two.game two.players en.network_id))
  unfolding handle_all
  duplicate_stays k k' k'' st h v a b a' b' a'' b'' =
      let (st₁, sent₁, e₁, h₁, v₁) = spawned_once k st 0 a b h v in
      let (st₂, sent₂, e₂, h₂, v₂) = spawned_once k' st₁ 1 a' b' h₁ v₁ in
      let (st₃, sent₃, e₃, h₃, v₃) = destroyed_once k'' st₂ 1 a'' b'' h₂ v₂ in
      (
        st₂,
        st₃,
        sent₁ ++ (sent₂ ++ []),
        sent₁ ++ (sent₂ ++ (sent₃ ++ [])),
        rw (e₁, e₂) refl,
        v₂,
        rw (e₁, e₂, e₃) refl,
        v₃,
      )
