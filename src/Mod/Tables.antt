-- ===== src/Mod/Tables.antt =====
-- The ids in the tables of the mod: of Network's connections and of NetPlayerManager's players.
use crossover.Prelude.{
  ℕ, false, List, [], ◌∷◌, ◌++◌, map, append_assoc, Option, none, some, ◌≡◌, refl, sym, arith,
  contains, IsDistinct, IsDistinct-append,
}
use mathlib.Core.List.{map-append}
use crossover.Ids.{IsLowestFree, free_from_lem}
use crossover.Wire.Bytes.{Vec3}
use crossover.Mod.Network.{Connection, network_ids, erase_connection, get_free_network_id}
use crossover.Mod.Players.{
  NetPlayer, LocalNetPlayer, Players, local_ids_of, local_ids, get_free_local_id,
}
use crossover.Mod.Motion.{put_motion, put_rotation}
use crossover.Mod.Lifecycle.{erase_net_player}

abbrev pub seats : List NetPlayer → List ℕ
seats = map λ p. p.local_id

-- The mod always finds a network id for a connection: the lowest one from 0 that none has, and at
-- most their number.
pub get_free_network_id_lem :
    (cs : List Connection)
    → (r : ℕ) × (get_free_network_id cs ≡ some r) × IsLowestFree 0 (network_ids cs) r
unfolding get_free_network_id
get_free_network_id_lem cs = free_from_lem 0 (network_ids cs)

-- The mod always finds a local id for a player: the lowest one from 0 that neither the local
-- player nor another has, and at most their number.
pub get_free_local_id_lem :
    (m : Players) → (r : ℕ) × (get_free_local_id m ≡ some r) × IsLowestFree 0 (local_ids m) r
unfolding get_free_local_id
get_free_local_id_lem m = free_from_lem 0 (local_ids m)

contains-erase_connection :
    (i j : ℕ) (cs : List Connection)
    → contains (network_ids cs) j ≡ false
    → contains (network_ids (erase_connection i cs)) j ≡ false
unfolding erase_connection
contains-erase_connection i j [] h = refl
contains-erase_connection i j (c ∷ cs) h = ground (arith, contains-erase_connection i j cs)

pub erase_connection-IsDistinct :
    (i : ℕ) (cs : List Connection)
    → IsDistinct (network_ids cs)
    → IsDistinct (network_ids (erase_connection i cs))
unfolding erase_connection
erase_connection-IsDistinct i [] h = h
erase_connection-IsDistinct i (c ∷ cs) h =
    ground
      (arith, contains-erase_connection i c.network_id cs, erase_connection-IsDistinct i cs h.1)

pub contains-erase_net_player :
    (i j : ℕ) (ps : List NetPlayer)
    → contains (seats ps) j ≡ false
    → contains (seats (erase_net_player i ps)) j ≡ false
unfolding erase_net_player
contains-erase_net_player i j [] h = refl
contains-erase_net_player i j (p ∷ ps) h = ground (arith, contains-erase_net_player i j ps)

pub erase_net_player-IsDistinct :
    (i : ℕ) (ps : List NetPlayer)
    → IsDistinct (seats ps)
    → IsDistinct (seats (erase_net_player i ps))
unfolding erase_net_player
erase_net_player-IsDistinct i [] h = h
erase_net_player-IsDistinct i (p ∷ ps) h =
    ground (arith, contains-erase_net_player i p.local_id ps, erase_net_player-IsDistinct i ps h.1)

pub seats-put_motion :
    (i : ℕ) (at acceleration : Vec3) (ps : List NetPlayer)
    → seats (put_motion i at acceleration ps) ≡ seats ps
unfolding put_motion
seats-put_motion i at acceleration [] = refl
seats-put_motion i at acceleration (p ∷ ps) = ground (arith, seats-put_motion i at acceleration ps)

pub seats-put_rotation :
    (i : ℕ) (up forward : Vec3) (ps : List NetPlayer)
    → seats (put_rotation i up forward ps) ≡ seats ps
unfolding put_rotation
seats-put_rotation i up forward [] = refl
seats-put_rotation i up forward (p ∷ ps) = ground (arith, seats-put_rotation i up forward ps)

-- The local ids of all players, the local one first.
abbrev pub Seated : Option LocalNetPlayer → List NetPlayer → Type 0
Seated o ps = IsDistinct (local_ids_of o ++ seats ps)

pub Seated-add :
    (o : Option LocalNetPlayer) (ps : List NetPlayer) (p : NetPlayer)
    → Seated o ps
    → contains (local_ids_of o ++ seats ps) p.local_id ≡ false
    → Seated o (ps ++ p ∷ [])
Seated-add o ps p h new =
    rw
      (
        map-append (λ (q : NetPlayer). q.local_id) ps (p ∷ []),
        sym (append_assoc (local_ids_of o) (seats ps) (p.local_id ∷ [])),
      )
      (IsDistinct-append (local_ids_of o ++ seats ps) p.local_id h new)

pub Seated-remove :
    (o : Option LocalNetPlayer) (i : ℕ) (ps : List NetPlayer)
    → Seated o ps
    → Seated o (erase_net_player i ps)
Seated-remove none i ps h = erase_net_player-IsDistinct i ps h
Seated-remove (some l) i ps h =
    (contains-erase_net_player i l.local_id ps h.0, erase_net_player-IsDistinct i ps h.1)

-- The local player leaves, or takes another seat.
pub Seated-leave : (o : Option LocalNetPlayer) (ps : List NetPlayer) → Seated o ps → Seated none ps
Seated-leave none ps h = h
Seated-leave (some l) ps h = h.1

pub Seated-move :
    (o : Option LocalNetPlayer) (l : LocalNetPlayer) (ps : List NetPlayer)
    → Seated o ps
    → contains (local_ids_of o ++ seats ps) l.local_id ≡ false
    → Seated (some l) ps
Seated-move none l ps h new = (new, h)
Seated-move (some k) l ps h new = (ground arith, h.1)
