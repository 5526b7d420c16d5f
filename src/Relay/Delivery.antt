-- ===== src/Relay/Delivery.antt =====
-- Who receives what of the messages that Server/src/RelayServer.cpp relays.
use crossover.Prelude.{
  ℕ, ◌≡◌, ◌≢◌, refl, false, not, List, [], ◌∷◌, ◌++◌, some, ◌==◌, ◌||◌, if◌then◌else◌, contains,
  IsDistinct, arith,
}
use crossover.Relay.State.{Player, Reliability, Effect, send, close_connection, write_state_file}
use crossover.Relay.Lookup.{ids, addresses, find_by_address, replace_by_address}
use crossover.Relay.Sending.{relay_except}
use crossover.Relay.Members.{find-id}

-- What an address is sent, in order.
abbrev pub inbox : ℕ → List Effect → List (List ℕ × Reliability)
inbox a [] = []
inbox a (send to bytes r ∷ es) = if to == a then (bytes, r) ∷ inbox a es else inbox a es
inbox a (close_connection to ∷ es) = inbox a es
inbox a (write_state_file v ∷ es) = inbox a es

pub inbox-append : (a : ℕ) (xs ys : List Effect) → inbox a (xs ++ ys) ≡ inbox a xs ++ inbox a ys
inbox-append a [] ys = refl
inbox-append a (send to bytes r ∷ xs) ys = ground (arith, inbox-append a xs ys)
inbox-append a (close_connection to ∷ xs) ys = inbox-append a xs ys
inbox-append a (write_state_file v ∷ xs) ys = inbox-append a xs ys

-- One copy for a player that is in the world and is not the one left out.
abbrev pub copies : ℕ → List ℕ → Reliability → Player → List (List ℕ × Reliability)
copies i bytes r q = if q.network_id == i || not q.spawned then [] else (bytes, r) ∷ []

pub inbox-relay_absent :
    (a i : ℕ) (bytes : List ℕ) (r : Reliability) (ps : List Player)
    → contains (addresses ps) a ≡ false
    → inbox a (relay_except i bytes r ps) ≡ []
unfolding relay_except
inbox-relay_absent a i bytes r [] h = refl
inbox-relay_absent a i bytes r (p ∷ ps) h = ground (arith, inbox-relay_absent a i bytes r ps)

-- A relayed message reaches each player at most once.
pub inbox-relay_except :
    (a i : ℕ) (bytes : List ℕ) (r : Reliability) (ps : List Player) (q : Player)
    → IsDistinct (addresses ps)
    → find_by_address a ps ≡ some q
    → inbox a (relay_except i bytes r ps) ≡ copies i bytes r q
unfolding relay_except find_by_address
inbox-relay_except a i bytes r [] q d h = cc
inbox-relay_except a i bytes r (p ∷ ps) q d h =
    ground (arith, inbox-relay_except a i bytes r ps q d.1, inbox-relay_absent a i bytes r ps)

-- Two players at different addresses have different ids.
pub find-ids_ne :
    (a b : ℕ) (ps : List Player) (p q : Player)
    → IsDistinct (ids ps)
    → find_by_address a ps ≡ some p
    → find_by_address b ps ≡ some q
    → a ≢ b
    → p.network_id ≢ q.network_id
unfolding find_by_address
find-ids_ne a b [] p q d hp hq ne e = cc
find-ids_ne a b (r ∷ ps) p q d hp hq ne e =
    ground (arith, find-ids_ne a b ps p q d.1, find-id a ps {p = p}, find-id b ps {p = q})

pub find-replace_ne :
    (a b : ℕ) (q : Player) (ps : List Player)
    → a ≢ b
    → q.address ≡ a
    → find_by_address b (replace_by_address a q ps) ≡ find_by_address b ps
unfolding find_by_address replace_by_address
find-replace_ne a b q [] ne e = refl
find-replace_ne a b q (p ∷ ps) ne e = ground (arith, find-replace_ne a b q ps)
