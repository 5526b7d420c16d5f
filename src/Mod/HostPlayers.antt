-- ===== src/Mod/HostPlayers.antt =====
-- The player table of a mod of Core/Multiplayer that has a local player: no null pointer is followed.
use crossover.Prelude.{ℕ, Bool, true, false, Option, none, some, ◌==◌, if_cases}
use crossover.Wire.Bytes.{Vec3, BitStream}
use crossover.Wire.Messages.{Entry}
use crossover.Mod.Engine.{Engine}
use crossover.Mod.Players.{
  LocalNetPlayer, Axis, movement, facing, State, Outcome, get_local_id_from_network_id,
  get_creature_from_local_id, get_creature_from_network_id,
}
use crossover.Mod.Motion.{hooked, hook_creature}
use crossover.Mod.Lifecycle.{
  announce_created, embody, create_with, create_net_player, is_new, create_if_new,
  create_net_players, announce_destroyed, disembody, destroy_with, destroy_net_player,
}
use crossover.Mod.Local.{
  teleported, teleport_local_net_player_to_host, become, become_with, create_local_net_player,
}
use crossover.Mod.Tables.{get_free_local_id_lem}

abbrev pub Present : Option LocalNetPlayer → Type 0
Present none = ⊥
Present (some _) = Unit

-- There is a local player.
abbrev pub HasLocal : {G : Type 0} → State G → Type 0
HasLocal st = Present st.players.local_net_player

abbrev pub Runs : {G : Type 0} → Outcome G → Type 0
Runs none = ⊥
Runs (some (st, _)) = HasLocal st

module _ {G : Type 0} (e : Engine G) where
  hooked-HasLocal :
      (axis : Axis) (broadcasts : Bool) (i : ℕ) (st : State G) (c : Option ℕ)
      → HasLocal st
      → HasLocal (hooked e axis broadcasts i st c)
  hooked-HasLocal axis broadcasts i st none v = v
  hooked-HasLocal axis broadcasts i st (some c) v = v

  hook_creature-HasLocal :
      (axis : Axis) (broadcasts : Bool) (i : ℕ) (st : State G)
      → HasLocal st
      → HasLocal (hook_creature e axis broadcasts i st)
  unfolding hook_creature
  hook_creature-HasLocal axis broadcasts i st v =
      hooked-HasLocal axis broadcasts i st (get_creature_from_network_id e st.game st.players i) v

  teleported-HasLocal :
      (i : ℕ) (at : Vec3) (st : State G) (c : Option ℕ)
      → HasLocal st
      → HasLocal (teleported e i at st c)
  teleported-HasLocal i at st none v = v
  teleported-HasLocal i at st (some c) v = v

  become-HasLocal : (i : ℕ) (at : Vec3) (l : ℕ) (st : State G) → HasLocal (become e i at l st)
  unfolding become teleport_local_net_player_to_host
  become-HasLocal i at l st =
      if_cases {A = State G} HasLocal (i == 0)
        (λ _. hook_creature-HasLocal facing true i _ (hook_creature-HasLocal movement true i _ tt))
        (λ _.
          teleported-HasLocal i at _ (get_creature_from_network_id e _ _ i)
            (hook_creature-HasLocal facing true i _ (hook_creature-HasLocal movement true i _ tt)))

  become_with-HasLocal :
      (i : ℕ) (at : Vec3) (l : ℕ) (st : State G) (c : Option ℕ)
      → HasLocal st
      → HasLocal (become_with e i at l st c)
  become_with-HasLocal i at l st none v = v
  become_with-HasLocal i at l st (some c) v = become-HasLocal i at l st

  pub create_local_net_player-HasLocal :
      (i : ℕ) (at : Vec3) (st : State G)
      → HasLocal st
      → HasLocal (create_local_net_player e i at st)
  unfolding create_local_net_player
  create_local_net_player-HasLocal i at st v =
      let (l, eq, _) = get_free_local_id_lem st.players in
      rw eq (become_with-HasLocal i at l st (get_creature_from_local_id e st.game l) v)

  module _ (s : BitStream) where
    announce_created-Runs :
        (en : Entry) (st : State G) (o : Option LocalNetPlayer)
        → Present o
        → HasLocal st
        → Runs (announce_created e s en st o)
    announce_created-Runs en st none p v = p
    announce_created-Runs en st (some l) p v = v

    embody-HasLocal :
        (en : Entry) (l : ℕ) (st : State G) → HasLocal st → HasLocal (embody e s en l st)
    unfolding embody
    embody-HasLocal en l st v =
        hook_creature-HasLocal facing false en.network_id _
          (hook_creature-HasLocal movement false en.network_id _ v)

    pub create_net_player-Runs :
        (en : Entry) (st : State G) → HasLocal st → Runs (create_net_player e s en st)
    unfolding create_net_player create_with
    create_net_player-Runs en st v =
        let (l, eq, _) = get_free_local_id_lem st.players in
        let g = e.create_player st.game l in
        rw eq (
          if_cases {A = Outcome G} Runs (e.get_player g l)
            (λ _.
              announce_created-Runs en (embody e s en l (record st { game = g }))
                st.players.local_net_player v (embody-HasLocal en l (record st { game = g }) v))
            (λ _. v))

    create_if_new-Runs :
        (en : Entry) (st : State G) (o : Option LocalNetPlayer)
        → Present o
        → HasLocal st
        → Runs (create_if_new e s en st o)
    create_if_new-Runs en st none p v = p
    create_if_new-Runs en st (some l) p v =
        if_cases {A = Outcome G} Runs (is_new e s en st l) (λ _. create_net_player-Runs en st v)
          (λ _. v)

    pub create_net_players-Runs :
        (en : Entry) (st : State G) → HasLocal st → Runs (create_net_players e s en st)
    unfolding create_net_players
    create_net_players-Runs en st v = create_if_new-Runs en st st.players.local_net_player v v

    announce_destroyed-Runs :
        (i : ℕ) (st : State G) (o : Option LocalNetPlayer)
        → Present o
        → HasLocal st
        → Runs (announce_destroyed e s i st o)
    announce_destroyed-Runs i st none p v = p
    announce_destroyed-Runs i st (some l) p v = v

    destroy_with-Runs :
        (i : ℕ) (st : State G) (l : ℕ) (c : Option ℕ)
        → HasLocal st
        → Runs (destroy_with e s i st l c)
    unfolding destroy_with disembody
    destroy_with-Runs i st l none v = v
    destroy_with-Runs i st l (some c) v =
        announce_destroyed-Runs i (disembody e s i l c st) st.players.local_net_player v v

    pub destroy_net_player-Runs :
        (i : ℕ) (st : State G) → HasLocal st → Runs (destroy_net_player e s i st)
    unfolding destroy_net_player
    destroy_net_player-Runs i st v =
        destroy_with-Runs i st (get_local_id_from_network_id st.players i)
          (get_creature_from_network_id e st.game st.players i) v
