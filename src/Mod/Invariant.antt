-- ===== src/Mod/Invariant.antt =====
-- The tables of the mod stay free of duplicates, whatever packets a session brings.
use crossover.Prelude.{
  ℕ, zero, suc, Bool, false, List, [], ◌∷◌, Option, none, some, ◌≡◌, if_cases, contains, IsDistinct,
}
use crossover.Wire.Bytes.{Vec3, BitStream}
use crossover.Wire.Messages.{Entry}
use crossover.Mod.Network.{SystemAddress, Sent, network_ids}
use crossover.Mod.Engine.{Engine}
use crossover.Mod.Players.{
  NetPlayer, LocalNetPlayer, Axis, movement, facing, State, Outcome, local_ids,
  get_local_id_from_network_id, get_creature_from_network_id,
}
use crossover.Mod.Motion.{
  hooked, hook_creature, receive_net_player_movement, receive_net_player_rotation,
}
use crossover.Mod.Lifecycle.{
  new_net_player, announce_created, embody, create_with, create_net_player, is_new, create_if_new,
  create_net_players, announce_destroyed, disembody, destroy_with, destroy_net_player, prepend,
  carry_on, after_destroy, destroy_each, destroy_net_players,
}
use crossover.Mod.Tables.{
  get_free_local_id_lem, seats-put_motion, seats-put_rotation, Seated, Seated-add, Seated-remove,
}

-- No two connections have the same network id, and no two players the same local id.
abbrev pub Tidy : {G : Type 0} → State G → Type 0
Tidy st =
    IsDistinct (network_ids st.network.connections)
    × Seated st.players.local_net_player st.players.net_players

abbrev pub IsTidy : {G : Type 0} → Outcome G → Type 0
IsTidy none = Unit
IsTidy (some (st, _)) = Tidy st

abbrev pub IsTidyLoop : {G : Type 0} → Option (Outcome G) → Type 0
IsTidyLoop none = Unit
IsTidyLoop (some o) = IsTidy o

module _ {G : Type 0} (e : Engine G) where
  hooked-Tidy :
      (axis : Axis) (broadcasts : Bool) (i : ℕ) (st : State G) (c : Option ℕ)
      → Tidy st
      → Tidy (hooked e axis broadcasts i st c)
  hooked-Tidy axis broadcasts i st none v = v
  hooked-Tidy axis broadcasts i st (some c) v = v

  pub hook_creature-Tidy :
      (axis : Axis) (broadcasts : Bool) (i : ℕ) (st : State G)
      → Tidy st
      → Tidy (hook_creature e axis broadcasts i st)
  unfolding hook_creature
  hook_creature-Tidy axis broadcasts i st v =
      hooked-Tidy axis broadcasts i st (get_creature_from_network_id e st.game st.players i) v

  module _ (s : BitStream) where
    announce_created-Tidy :
        (en : Entry) (st : State G) (o : Option LocalNetPlayer)
        → Tidy st
        → IsTidy (announce_created e s en st o)
    announce_created-Tidy en st none v = tt
    announce_created-Tidy en st (some l) v = v

    embody-Tidy :
        (en : Entry) (l : ℕ) (st : State G)
        → Tidy st
        → contains (local_ids st.players) l ≡ false
        → Tidy (embody e s en l st)
    unfolding embody
    embody-Tidy en l st v new = hook_creature-Tidy facing false en.network_id _ (
        hook_creature-Tidy movement false en.network_id _ (
          v.0,
          Seated-add st.players.local_net_player st.players.net_players
              (new_net_player en.network_id l) v.1 new,
        ))

    pub create_net_player-Tidy :
        (en : Entry) (st : State G) → Tidy st → IsTidy (create_net_player e s en st)
    unfolding create_net_player create_with
    create_net_player-Tidy en st v =
        let (l, eq, low) = get_free_local_id_lem st.players in
        let g = e.create_player st.game l in
        rw eq (
          if_cases {A = Outcome G} IsTidy (e.get_player g l)
            (λ _.
              announce_created-Tidy en (embody e s en l (record st { game = g }))
                st.players.local_net_player (embody-Tidy en l (record st { game = g }) v low.free))
            (λ _. v))

    pub create_net_players-Tidy :
        (en : Entry) (st : State G) → Tidy st → IsTidy (create_net_players e s en st)
    unfolding create_net_players
    create_net_players-Tidy en st v = asked st.players.local_net_player
      where
        asked : (o : Option LocalNetPlayer) → IsTidy (create_if_new e s en st o)
        asked none = tt
        asked (some l) =
            if_cases {A = Outcome G} IsTidy (is_new e s en st l)
              (λ _. create_net_player-Tidy en st v) (λ _. v)

    announce_destroyed-Tidy :
        (i : ℕ) (st : State G) (o : Option LocalNetPlayer)
        → Tidy st
        → IsTidy (announce_destroyed e s i st o)
    announce_destroyed-Tidy i st none v = tt
    announce_destroyed-Tidy i st (some l) v = v

    destroy_with-Tidy :
        (i : ℕ) (st : State G) (l : ℕ) (c : Option ℕ) → Tidy st → IsTidy (destroy_with e s i st l c)
    unfolding destroy_with disembody
    destroy_with-Tidy i st l none v = v
    destroy_with-Tidy i st l (some c) v =
        announce_destroyed-Tidy i (disembody e s i l c st) st.players.local_net_player
          (v.0, Seated-remove st.players.local_net_player i st.players.net_players v.1)

    pub destroy_net_player-Tidy :
        (i : ℕ) (st : State G) → Tidy st → IsTidy (destroy_net_player e s i st)
    unfolding destroy_net_player
    destroy_net_player-Tidy i st v =
        destroy_with-Tidy i st (get_local_id_from_network_id st.players i)
          (get_creature_from_network_id e st.game st.players i) v

    prepend-Tidy : (sent : List Sent) (o : Outcome G) → IsTidy o → IsTidy (prepend e s sent o)
    prepend-Tidy sent none v = tt
    prepend-Tidy sent (some r) v = v

    carry_on-Tidy :
        (sent : List Sent) (o : Option (Outcome G))
        → IsTidyLoop o
        → IsTidyLoop (carry_on e s sent o)
    carry_on-Tidy sent none v = tt
    carry_on-Tidy sent (some o) v = prepend-Tidy sent o v

    after_destroy-Tidy :
        (o : Outcome G) (rest : State G → Option (Outcome G))
        → IsTidy o
        → ((st : State G) → Tidy st → IsTidyLoop (rest st))
        → IsTidyLoop (after_destroy e s o rest)
    after_destroy-Tidy none rest v f = tt
    after_destroy-Tidy (some (st, sent)) rest v f = carry_on-Tidy sent (rest st) (f st v)

    destroy_each-Tidy :
        (fuel : ℕ) (st : State G) (ps : List NetPlayer)
        → Tidy st
        → IsTidyLoop (destroy_each e s fuel st ps)
    unfolding destroy_each
    destroy_each-Tidy zero st [] v = v
    destroy_each-Tidy zero st (p ∷ ps) v = tt
    destroy_each-Tidy (suc fuel) st [] v = v
    destroy_each-Tidy (suc fuel) st (p ∷ ps) v =
        after_destroy-Tidy (destroy_net_player e s p.network_id st) _
          (destroy_net_player-Tidy p.network_id st v)
          (λ st' v'. destroy_each-Tidy fuel st' st'.players.net_players v')

    pub destroy_net_players-Tidy :
        (fuel : ℕ) (st : State G) → Tidy st → IsTidyLoop (destroy_net_players e s fuel st)
    unfolding destroy_net_players
    destroy_net_players-Tidy fuel st v = destroy_each-Tidy fuel st st.players.net_players v

    module _ (resolve : List ℕ → ℕ → SystemAddress) where
      pub movement-Tidy :
          (i : ℕ) (at acceleration : Vec3) (st : State G)
          → Tidy st
          → Tidy (receive_net_player_movement s resolve i at acceleration st).0
      unfolding receive_net_player_movement
      movement-Tidy i at acceleration st v =
          (v.0, rw (seats-put_motion i at acceleration st.players.net_players) v.1)

      pub rotation-Tidy :
          (i : ℕ) (up forward : Vec3) (st : State G)
          → Tidy st
          → Tidy (receive_net_player_rotation s resolve i up forward st).0
      unfolding receive_net_player_rotation
      rotation-Tidy i up forward st v =
          (v.0, rw (seats-put_rotation i up forward st.players.net_players) v.1)
