-- ===== src/Relay/Members.antt =====
-- What the searches and updates of `players_` do to the ids and addresses in it.
use crossover.Prelude.{
  ℕ, ◌≤◌, ◌≡◌, refl, true, false, not, List, [], ◌∷◌, length, none, some, ◌==◌, ◌&&◌, contains,
  IsDistinct, All, arith,
}
use crossover.Ids.{IsLowestFree, free_from_lem}
use crossover.Relay.State.{Player}
use crossover.Relay.Lookup.{
  ids, addresses, find_by_address, replace_by_address, allocate_network_id, first_client_network_id,
}
use crossover.Relay.Handlers.{remove_by_network_id}

-- The server's id allocation always returns an id: the lowest one from 1 that no player has, and
-- at most one more than the number of players.
pub allocate_network_id_lem :
    (ps : List Player)
    → (r : ℕ) × (allocate_network_id ps ≡ some r) × IsLowestFree first_client_network_id (ids ps) r
unfolding allocate_network_id
allocate_network_id_lem ps = free_from_lem first_client_network_id (ids ps)

pub find-address :
    (a : ℕ) (ps : List Player) {p : Player} → find_by_address a ps ≡ some p → p.address ≡ a
unfolding find_by_address
find-address a [] {p} h = cc
find-address a (q ∷ ps) {p} h = ground (arith, find-address a ps {p = p})

pub find-none :
    (a : ℕ) (ps : List Player) → find_by_address a ps ≡ none → contains (addresses ps) a ≡ false
unfolding find_by_address
find-none a [] h = refl
find-none a (q ∷ ps) h = ground (arith, find-none a ps)

pub find-id :
    (a : ℕ) (ps : List Player) {p : Player}
    → find_by_address a ps ≡ some p
    → contains (ids ps) p.network_id ≡ true
unfolding find_by_address
find-id a [] {p} h = cc
find-id a (q ∷ ps) {p} h = ground (arith, find-id a ps {p = p})

-- What the player at an address becomes keeps its id and its address.
pub record Same (p q : Player) : Type 0 where
  pub same_id : q.network_id ≡ p.network_id
  pub same_address : q.address ≡ p.address

pub ids-replace :
    (a : ℕ) (q : Player) (ps : List Player) {p : Player}
    → find_by_address a ps ≡ some p
    → Same p q
    → ids (replace_by_address a q ps) ≡ ids ps
unfolding find_by_address replace_by_address
ids-replace a q [] {p} h e = refl
ids-replace a q (r ∷ ps) {p} h e = ground (arith, ids-replace a q ps {p = p})

pub addresses-replace :
    (a : ℕ) (q : Player) (ps : List Player) {p : Player}
    → find_by_address a ps ≡ some p
    → Same p q
    → addresses (replace_by_address a q ps) ≡ addresses ps
unfolding find_by_address replace_by_address
addresses-replace a q [] {p} h e = refl
addresses-replace a q (r ∷ ps) {p} h e = ground (arith, addresses-replace a q ps {p = p})

pub length-replace :
    (a : ℕ) (q : Player) (ps : List Player) → length (replace_by_address a q ps) ≡ length ps
unfolding replace_by_address
length-replace a q [] = refl
length-replace a q (r ∷ ps) = ground (arith, length-replace a q ps)

-- The player that was written is the one that is found next.
pub find-replace :
    (a : ℕ) (q : Player) (ps : List Player) {p : Player}
    → find_by_address a ps ≡ some p
    → q.address ≡ a
    → find_by_address a (replace_by_address a q ps) ≡ some q
unfolding find_by_address replace_by_address
find-replace a q [] {p} h e = cc
find-replace a q (r ∷ ps) {p} h e = ground (arith, find-replace a q ps {p = p})

pub contains-remove :
    (i j : ℕ) (ps : List Player)
    → contains (ids (remove_by_network_id i ps)) j ≡ (contains (ids ps) j && not (i == j))
unfolding remove_by_network_id
contains-remove i j [] = refl
contains-remove i j (p ∷ ps) = ground (arith, contains-remove i j ps)

pub ids-remove-IsDistinct :
    (i : ℕ) (ps : List Player) → IsDistinct (ids ps) → IsDistinct (ids (remove_by_network_id i ps))
unfolding remove_by_network_id
ids-remove-IsDistinct i [] h = tt
ids-remove-IsDistinct i (p ∷ ps) h =
    ground (arith, ids-remove-IsDistinct i ps h.1, contains-remove i p.network_id ps)

pub absent-remove :
    (i a : ℕ) (ps : List Player)
    → contains (addresses ps) a ≡ false
    → contains (addresses (remove_by_network_id i ps)) a ≡ false
unfolding remove_by_network_id
absent-remove i a [] h = refl
absent-remove i a (p ∷ ps) h = ground (arith, absent-remove i a ps)

pub addresses-remove-IsDistinct :
    (i : ℕ) (ps : List Player)
    → IsDistinct (addresses ps)
    → IsDistinct (addresses (remove_by_network_id i ps))
unfolding remove_by_network_id
addresses-remove-IsDistinct i [] h = tt
addresses-remove-IsDistinct i (p ∷ ps) h =
    ground (arith, addresses-remove-IsDistinct i ps h.1, absent-remove i p.address ps)

pub length-remove-le : (i : ℕ) (ps : List Player) → length (remove_by_network_id i ps) ≤ length ps
unfolding remove_by_network_id
length-remove-le i [] = omega arith
length-remove-le i (p ∷ ps) = ground (arith, length-remove-le i ps)

pub All-remove {κ} :
    (P : ℕ → Type κ) (i : ℕ) (ps : List Player)
    → All P (ids ps)
    → All P (ids (remove_by_network_id i ps))
unfolding remove_by_network_id
All-remove P i [] h = tt
All-remove P i (p ∷ ps) h = ground (arith, All-remove P i ps h.1)
