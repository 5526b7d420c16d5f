-- ===== src/Mod/ComponentInvariant.antt =====
-- From frame to frame, the mod of Core/Multiplayer is idle or in a session that is alive.
use crossover.Prelude.{ℕ, true, List, [], ◌∷◌, ◌≡◌, if_cases}
use crossover.Wire.Bytes.{BitStream}
use crossover.Config.Environment.{Numerals}
use crossover.Mod.Network.{SystemAddress, Sent}
use crossover.Mod.Engine.{Engine}
use crossover.Mod.Session.{Ending, goes_on, crashes, hangs, Role, hosting}
use crossover.Mod.Invariant.{Tidy}
use crossover.Mod.SessionInvariant.{Leaves, update-Tidy, host-Tidy, connect-Tidy, disconnect-Tidy}
use crossover.Mod.Component.{
  Component, idle, playing, Frame, next, frame_crashes, frame_hangs, Input, read_ip, read_port,
  new_session, play, after_frame, and_then, drop_inactive, drop_after, selection, update_network,
  handle_update, frames,
}

-- A session has no duplicates in its tables.
abbrev pub IsNeat : {G : Type 0} → Component G → Type 0
IsNeat (idle _) = Unit
IsNeat (playing _ st) = Tidy st

-- And its network is active.
abbrev pub IsAlive : {G : Type 0} → Component G → Type 0
IsAlive (idle _) = Unit
IsAlive (playing _ st) = Tidy st × (st.network.active ≡ true)

abbrev pub Then : {G : Type 0} → (Component G → Type 0) → Frame G → Type 0
Then P (next c _) = P c
Then P frame_crashes = Unit
Then P frame_hangs = Unit

play-Then : {G : Type 0} (role : Role) (r : Ending G) → Leaves Tidy r → Then IsNeat (play role r)
play-Then role (goes_on st sent) v = v
play-Then role crashes v = tt
play-Then role hangs v = tt

after_frame-Then :
    {G : Type 0} (P : Component G → Type 0) (sent : List Sent) (r : Frame G)
    → Then P r
    → Then P (after_frame sent r)
after_frame-Then P sent (next c more) v = v
after_frame-Then P sent frame_crashes v = tt
after_frame-Then P sent frame_hangs v = tt

and_then-Then :
    {G : Type 0} (P Q : Component G → Type 0) (r : Frame G) (k : Component G → Frame G)
    → Then P r
    → ((c : Component G) → P c → Then Q (k c))
    → Then Q (and_then r k)
and_then-Then P Q (next c sent) k v f = after_frame-Then Q sent (k c) (f c v)
and_then-Then P Q frame_crashes k v f = tt
and_then-Then P Q frame_hangs k v f = tt

drop_inactive-IsAlive : {G : Type 0} (c : Component G) → IsNeat c → IsAlive (drop_inactive c)
drop_inactive-IsAlive (idle g) v = tt
drop_inactive-IsAlive {G = G} (playing role st) v =
    if_cases {A = Component G} IsAlive st.network.active (λ h. (v, h)) (λ _. tt)

drop_after-Then : {G : Type 0} (r : Frame G) → Then IsNeat r → Then IsAlive (drop_after r)
drop_after-Then (next c sent) v = drop_inactive-IsAlive c v
drop_after-Then frame_crashes v = tt
drop_after-Then frame_hangs v = tt

IsAlive-IsNeat : {G : Type 0} (c : Component G) → IsAlive c → IsNeat c
IsAlive-IsNeat (idle g) v = tt
IsAlive-IsNeat (playing role st) v = v.0

module _ {G : Type 0} (e : Engine G) (s : BitStream) (resolve : List ℕ → ℕ → SystemAddress)
    (bound : SystemAddress) (lib : Numerals) where
  selection-Then :
      (i : Input) (c : Component G) → IsNeat c → Then IsNeat (selection e s resolve bound lib i c)
  unfolding selection
  selection-Then i (playing role st) v =
      if_cases {A = Frame G} (Then IsNeat) i.numpad3
        (λ _. play-Then role _ (disconnect-Tidy e s resolve bound st v)) (λ _. v)
  selection-Then i (idle g) v =
      if_cases {A = Frame G} (Then IsNeat) i.numpad1
        (λ _. play-Then hosting _ (
          host-Tidy e s resolve bound (read_port lib i.port_line) i.started (new_session g)
            (tt, tt)))
        (λ _.
          if_cases {A = Frame G} (Then IsNeat) i.numpad2
            (λ _.
              connect-Tidy e s resolve bound (read_ip i.ip_line) (read_port lib i.port_line)
                i.started (new_session g) (tt, tt))
            (λ _. tt))

  update_network-Then :
      (i : Input) (c : Component G)
      → IsNeat c
      → Then IsAlive (update_network e s resolve bound lib i c)
  unfolding update_network
  update_network-Then i (idle g) v = tt
  update_network-Then i (playing role st) v =
      drop_after-Then _ (play-Then role _ (update-Tidy e s resolve bound role i.packets st v))

  handle_update-IsAlive :
      (i : Input) (c : Component G)
      → IsAlive c
      → Then IsAlive (handle_update e s resolve bound lib i c)
  unfolding handle_update
  handle_update-IsAlive i c v =
      and_then-Then IsNeat IsAlive _ _ (selection-Then i c (IsAlive-IsNeat c v))
        (λ c' v'. update_network-Then i c' v')

  -- From no session or such a one, whatever keys are pressed and packets come in, frame by frame:
  -- after each frame that ends, the mod is idle, or in a session whose network is active, with no
  -- network id given to two connections and no local id to two players, the local one included.
  pub frames-IsAlive :
      (is : List Input) (c : Component G)
      → IsAlive c
      → Then IsAlive (frames e s resolve bound lib is c)
  unfolding frames
  frames-IsAlive [] c v = v
  frames-IsAlive (i ∷ is) c v =
      and_then-Then IsAlive IsAlive _ _ (handle_update-IsAlive i c v)
        (λ c' v'. frames-IsAlive is c' v')
