-- ===== src/Wire/Messages.antt =====
-- The messages of Server/include/Protocol.h, the bytes that the server writes for each, and the
-- fields that the two ends read back.
use crossover.Prelude.{
  ℕ, zero, suc, ◌+◌, ◌-◌, ◌*◌, ◌^◌, List, [], ◌∷◌, ◌++◌, length, leb, if◌then◌else◌,
}
use crossover.Wire.Bytes.{
  Vec3, zero_vec, IsWord, IsVec, BitStream, write_int, write_vec, read_int, read_vec,
}

abbrev pub user_packet_enum : ℕ
user_packet_enum = 134

abbrev pub connection_notification_id : ℕ
connection_notification_id = user_packet_enum

abbrev pub create_local_net_player_id : ℕ
create_local_net_player_id = user_packet_enum + 1

abbrev pub create_net_player_id : ℕ
create_net_player_id = user_packet_enum + 2

abbrev pub create_net_players_id : ℕ
create_net_players_id = user_packet_enum + 3

abbrev pub destroy_net_player_id : ℕ
destroy_net_player_id = user_packet_enum + 4

abbrev pub player_movement_id : ℕ
player_movement_id = user_packet_enum + 5

abbrev pub player_rotation_id : ℕ
player_rotation_id = user_packet_enum + 6

-- Exact wire sizes.
abbrev pub msg_id_bytes : ℕ
msg_id_bytes = 1

abbrev pub int_bytes : ℕ
int_bytes = 4

abbrev pub vec3_bytes : ℕ
vec3_bytes = 12

abbrev pub size_connection_notification : ℕ
size_connection_notification = msg_id_bytes

abbrev pub size_create_local_net_player : ℕ
size_create_local_net_player = msg_id_bytes + int_bytes + vec3_bytes

abbrev pub size_create_net_player : ℕ
size_create_net_player = msg_id_bytes + int_bytes * 2 + vec3_bytes

abbrev pub size_create_net_players_header : ℕ
size_create_net_players_header = msg_id_bytes + int_bytes

abbrev pub size_create_net_players_entry : ℕ
size_create_net_players_entry = int_bytes * 2 + vec3_bytes

abbrev pub size_destroy_net_player : ℕ
size_destroy_net_player = msg_id_bytes + int_bytes

abbrev pub size_player_movement : ℕ
size_player_movement = msg_id_bytes + int_bytes + vec3_bytes * 2

abbrev pub size_player_rotation : ℕ
size_player_rotation = msg_id_bytes + int_bytes + vec3_bytes * 2

-- One row of a roster: who, which definition, where.
pub record Entry : Type 0 where
  pub network_id : ℕ
  pub def_global_index : ℕ
  pub position : Vec3

pub data Message : Type 0 where
  connection_notification : Message
  create_local_net_player : (network_id : ℕ) (spawn : Vec3) → Message
  create_net_player : (entry : Entry) → Message
  create_net_players : (entries : List Entry) → Message
  destroy_net_player : (network_id : ℕ) → Message
  player_movement : (network_id : ℕ) (position acceleration : Vec3) → Message
  player_rotation : (network_id : ℕ) (up forward : Vec3) → Message

-- The fields of ID_PLAYER_MOVEMENT and of ID_PLAYER_ROTATION.
pub record Motion : Type 0 where
  pub claimed_id : ℕ
  pub first : Vec3
  pub second : Vec3

module _ (s : BitStream) where
  unfoldable pub write_entry : Entry → List ℕ
  write_entry e =
      write_int s e.network_id ++ (write_int s e.def_global_index ++ write_vec s e.position)

  unfoldable pub write_entries : List Entry → List ℕ
  write_entries [] = []
  write_entries (e ∷ es) = write_entry e ++ write_entries es

  -- Everything behind the byte of the message id.
  unfoldable pub write_body : Message → List ℕ
  write_body connection_notification = []
  write_body (create_local_net_player i spawn) = write_int s i ++ write_vec s spawn
  write_body (create_net_player e) = write_entry e
  write_body (create_net_players es) = write_int s (length es) ++ write_entries es
  write_body (destroy_net_player i) = write_int s i
  write_body (player_movement i position acceleration) =
      write_int s i ++ (write_vec s position ++ write_vec s acceleration)
  write_body (player_rotation i up forward) =
      write_int s i ++ (write_vec s up ++ write_vec s forward)

  -- `claimedId`, `defGlobalIndex` and `position` in HandleCreateNetPlayer and in the mod's
  -- CreateNetPlayer callback; `claimedId` starts as -1, a vector as zero. `defGlobalIndex` starts as 0
  -- in the server and is not initialised in the mod, so what it holds first is an argument.
  unfoldable pub read_entry : ℕ → List ℕ → Entry × List ℕ
  read_entry unset bs =
      let (i, bs₁) = read_int s (2 ^ 32 - 1) bs in
      let (d, bs₂) = read_int s unset bs₁ in
      let (p, bs₃) = read_vec s zero_vec bs₂ in
      (record { network_id = i; def_global_index = d; position = p }, bs₃)

  -- In HandlePlayerMovement, HandlePlayerRotation and the mod's two callbacks for them.
  unfoldable pub read_motion : List ℕ → Motion
  read_motion bs =
      let (i, bs₁) = read_int s (2 ^ 32 - 1) bs in
      let (a, bs₂) = read_vec s zero_vec bs₁ in
      let (b, bs₃) = read_vec s zero_vec bs₂ in record { claimed_id = i; first = a; second = b }

  -- `unset` gives what `defGlobalIndex` holds first in the round with `n` rounds left behind it.
  unfoldable pub read_entries : (ℕ → ℕ) → ℕ → List ℕ → List Entry
  read_entries unset zero bs = []
  read_entries unset (suc n) bs =
      let (e, rest) = read_entry (unset n) bs in e ∷ read_entries unset n rest

  -- The mod's CreateNetPlayers callback: a count from 2 ^ 31 on is a negative int, and no round.
  unfoldable pub read_create_net_players : (ℕ → ℕ) → List ℕ → List Entry
  read_create_net_players unset bs =
      let (count, rest) = read_int s 0 bs in
      if leb (2 ^ 31) count then [] else read_entries unset count rest

-- The first byte of a packet.
abbrev pub message_id : Message → ℕ
message_id connection_notification = connection_notification_id
message_id (create_local_net_player _ _) = create_local_net_player_id
message_id (create_net_player _) = create_net_player_id
message_id (create_net_players _) = create_net_players_id
message_id (destroy_net_player _) = destroy_net_player_id
message_id (player_movement _ _ _) = player_movement_id
message_id (player_rotation _ _ _) = player_rotation_id

abbrev pub IsEntry : Entry → Type 0
IsEntry e = IsWord e.network_id × IsWord e.def_global_index × IsVec e.position

-- The size that Protocol.h gives for the message.
abbrev pub size_of : Message → ℕ
size_of connection_notification = size_connection_notification
size_of (create_local_net_player _ _) = size_create_local_net_player
size_of (create_net_player _) = size_create_net_player
size_of (create_net_players es) =
    size_create_net_players_header + length es * size_create_net_players_entry
size_of (destroy_net_player _) = size_destroy_net_player
size_of (player_movement _ _ _) = size_player_movement
size_of (player_rotation _ _ _) = size_player_rotation
