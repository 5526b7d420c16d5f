-- ===== src/Mod/Network.antt =====
-- The connection table of class Network (Core/Multiplayer/Network): NetworkUtils.cpp and
-- NetworkSender.cpp. Ids are the patterns of 32-bit ints.
use crossover.Prelude.{
  ℕ, suc, ◌-◌, ◌^◌, Bool, true, false, not, List, [], ◌∷◌, map, length, keep, Option, none, some,
  ◌==◌, ◌&&◌, if◌then◌else◌,
}
use crossover.Ids.{free_from}
use crossover.Relay.State.{Reliability}

-- `none` is UNASSIGNED_SYSTEM_ADDRESS.
abbrev pub SystemAddress : Type 0
SystemAddress = Option ℕ

unfoldable pub address_eq : SystemAddress → SystemAddress → Bool
address_eq none none = true
address_eq none (some _) = false
address_eq (some _) none = false
address_eq (some a) (some b) = a == b

pub record Connection : Type 0 where
  pub address : SystemAddress
  pub network_id : ℕ

-- -1
abbrev pub no_id : ℕ
no_id = 2 ^ 32 - 1

abbrev pub no_connection : Connection
no_connection = record { address = none; network_id = no_id }

-- `settings`, `self` and `connections`; `active` is what the peer's IsActive returns.
pub record Network : Type 0 where
  pub ip : List ℕ
  pub port : ℕ
  pub slots : ℕ
  pub active : Bool
  pub self : Connection
  pub connections : List Connection

-- One call of peer->Send; all are of high priority on channel 0.
pub record Sent : Type 0 where
  pub address : SystemAddress
  pub bytes : List ℕ
  pub reliability : Reliability

abbrev pub network_ids : List Connection → List ℕ
network_ids = map λ c. c.network_id

abbrev pub is_assigned : Connection → Bool
is_assigned c = not (address_eq c.address none)

abbrev pub send_each : List ℕ → Reliability → List Connection → List Sent
send_each bytes r = map λ c. record { address = c.address; bytes = bytes; reliability = r }

abbrev pub send_to : List ℕ → Reliability → SystemAddress → List Sent
send_to bytes r a = record { address = a; bytes = bytes; reliability = r } ∷ []

-- To the first connection with the id that has an address.
unfoldable pub send_to_client : ℕ → List ℕ → Reliability → List Connection → List Sent
send_to_client i bytes r [] = []
send_to_client i bytes r (c ∷ cs) =
    if c.network_id == i && is_assigned c
    then send_to bytes r c.address
    else send_to_client i bytes r cs

unfoldable pub send_to_all : List ℕ → Reliability → List Connection → List Sent
send_to_all bytes r cs = send_each bytes r (keep is_assigned cs)

unfoldable pub send_to_all_clients : List ℕ → Reliability → List Connection → List Sent
send_to_all_clients bytes r cs =
    send_each bytes r (keep (λ c. is_assigned c && not (c.network_id == 0)) cs)

abbrev pub is_other_client : ℕ → Connection → Bool
is_other_client i c = not (c.network_id == i) && (not (c.network_id == 0) && is_assigned c)

unfoldable pub send_to_all_clients_except : ℕ → List ℕ → Reliability → List Connection → List Sent
send_to_all_clients_except i bytes r cs = send_each bytes r (keep (is_other_client i) cs)

unfoldable pub send_to_all_except : ℕ → List ℕ → Reliability → List Connection → List Sent
send_to_all_except i bytes r cs =
    send_each bytes r (keep (λ c. not (c.network_id == i) && is_assigned c) cs)

-- The loop of RemoveConnection: the first connection with the id is erased.
unfoldable pub erase_connection : ℕ → List Connection → List Connection
erase_connection i [] = []
erase_connection i (c ∷ cs) = if c.network_id == i then cs else c ∷ erase_connection i cs

-- `none` would say that the fuel ran out.
unfoldable pub get_free_network_id : List Connection → Option ℕ
get_free_network_id cs = free_from (suc (length (network_ids cs))) 0 (network_ids cs)

unfoldable pub id_of_address : SystemAddress → List Connection → ℕ
id_of_address a [] = no_id
id_of_address a (c ∷ cs) = if address_eq c.address a then c.network_id else id_of_address a cs

unfoldable pub get_address_from_network_id : ℕ → List Connection → SystemAddress
get_address_from_network_id i [] = none
get_address_from_network_id i (c ∷ cs) =
    if c.network_id == i then c.address else get_address_from_network_id i cs

-- SystemAddress(ip, port) of the library.
module _ (resolve : List ℕ → ℕ → SystemAddress) where
  abbrev pub host_address : Network → SystemAddress
  host_address n = resolve n.ip n.port

  unfoldable pub send_to_host : Network → List ℕ → Reliability → List Sent
  send_to_host n bytes r = send_to bytes r (host_address n)

  unfoldable pub get_network_id_from_address : Network → SystemAddress → ℕ
  get_network_id_from_address n a =
      if address_eq a (host_address n) then 0 else id_of_address a n.connections
