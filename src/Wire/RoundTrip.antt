-- ===== src/Wire/RoundTrip.antt =====
-- What the server writes is what the mod reads, and has the size that Protocol.h states.
use crossover.Prelude.{
  ℕ, suc, ◌-◌, ◌*◌, ◌^◌, ◌<◌, ◌≡◌, refl, ap, List, [], ◌∷◌, ◌++◌, length, All, append-nil,
  append_assoc, length-append, arith,
}
use crossover.Wire.Bytes.{
  Vec3, IsWord, IsVec, zero_vec, BitStream, write_int, write_vec, read_vec, read_int-write_int,
  read_vec-write_vec, length-write_int, length-write_vec,
}
use crossover.Wire.Messages.{
  Entry, IsEntry, Message, connection_notification, create_local_net_player, create_net_player,
  create_net_players, destroy_net_player, player_movement, player_rotation, write_entry,
  write_entries, write_body, read_entry, read_motion, read_entries, read_create_net_players,
  size_of,
}

module _ (s : BitStream) where
  length-write_entry : (e : Entry) → length (write_entry s e) ≡ 20
  unfolding write_entry
  length-write_entry e = omega (
    arith,
    length-append (write_int s e.network_id)
        (write_int s e.def_global_index ++ write_vec s e.position),
    length-append (write_int s e.def_global_index) (write_vec s e.position),
    length-write_int s e.network_id,
    length-write_int s e.def_global_index,
    length-write_vec s e.position,
  )

  length-write_entries : (es : List Entry) → length (write_entries s es) ≡ length es * 20
  unfolding write_entries
  length-write_entries [] = refl
  length-write_entries (e ∷ es) = omega (
    arith,
    length-append (write_entry s e) (write_entries s es),
    length-write_entry e,
    length-write_entries es,
  )

  length-motion :
      (i : ℕ) (a b : Vec3) → length (write_int s i ++ (write_vec s a ++ write_vec s b)) ≡ 28
  length-motion i a b = omega (
    arith,
    length-append (write_int s i) (write_vec s a ++ write_vec s b),
    length-append (write_vec s a) (write_vec s b),
    length-write_int s i,
    length-write_vec s a,
    length-write_vec s b,
  )

  -- A message takes one byte for its id and the bytes that are written behind it, together the
  -- size that Protocol.h gives for it.
  pub length-write_body : (m : Message) → suc (length (write_body s m)) ≡ size_of m
  unfolding write_body
  length-write_body connection_notification = refl
  length-write_body (create_local_net_player i v) = omega (
    arith,
    length-append (write_int s i) (write_vec s v),
    length-write_int s i,
    length-write_vec s v,
  )
  length-write_body (create_net_player e) = omega (arith, length-write_entry e)
  length-write_body (create_net_players es) = omega (
    arith,
    length-append (write_int s (length es)) (write_entries s es),
    length-write_int s (length es),
    length-write_entries es,
  )
  length-write_body (destroy_net_player i) = omega (arith, length-write_int s i)
  length-write_body (player_movement i a b) = omega (arith, length-motion i a b)
  length-write_body (player_rotation i a b) = omega (arith, length-motion i a b)

  -- Reading the entry that was written gives it back, with whatever follows it in the stream.
  pub read_entry-write_entry :
      (unset : ℕ) (e : Entry) (rest : List ℕ)
      → IsEntry e
      → read_entry s unset (write_entry s e ++ rest) ≡ (e, rest)
  unfolding read_entry write_entry
  read_entry-write_entry unset e rest h = simp (
    append_assoc,
    read_int-write_int s (2 ^ 32 - 1) e.network_id _ h.0,
    read_int-write_int s unset e.def_global_index _ h.1,
    read_vec-write_vec s zero_vec e.position rest h.2,
  )

  read_last : (old v : Vec3) → IsVec v → read_vec s old (write_vec s v) ≡ (v, [])
  read_last old v h = rw append-nil at (read_vec-write_vec s old v [] h)

  -- A position and an acceleration, or an up and a forward vector, come back as they were sent.
  pub read_motion-write :
      (i : ℕ) (a b : Vec3)
      → IsWord i
      → IsVec a
      → IsVec b
      → read_motion s (write_int s i ++ (write_vec s a ++ write_vec s b))
        ≡ record { claimed_id = i; first = a; second = b }
  unfolding read_motion
  read_motion-write i a b hi ha hb = simp (
    read_int-write_int s (2 ^ 32 - 1) i _ hi,
    read_vec-write_vec s zero_vec a _ ha,
    read_last zero_vec b hb,
  )

  -- The two motion messages, and a player's entry, as their handlers read them.
  pub read_motion-movement :
      (i : ℕ) (a b : Vec3)
      → IsWord i
      → IsVec a
      → IsVec b
      → read_motion s (write_body s (player_movement i a b))
        ≡ record { claimed_id = i; first = a; second = b }
  unfolding write_body
  read_motion-movement = read_motion-write

  pub read_motion-rotation :
      (i : ℕ) (a b : Vec3)
      → IsWord i
      → IsVec a
      → IsVec b
      → read_motion s (write_body s (player_rotation i a b))
        ≡ record { claimed_id = i; first = a; second = b }
  unfolding write_body
  read_motion-rotation = read_motion-write

  pub read_entry-create_net_player :
      (unset : ℕ) (e : Entry)
      → IsEntry e
      → (read_entry s unset (write_body s (create_net_player e))).0 ≡ e
  unfolding write_body
  read_entry-create_net_player unset e h =
      ap (λ (r : Entry × List ℕ). r.0) (rw append-nil at (read_entry-write_entry unset e [] h))

  read_entries-write_entries :
      (unset : ℕ → ℕ) (es : List Entry) (rest : List ℕ)
      → All IsEntry es
      → read_entries s unset (length es) (write_entries s es ++ rest) ≡ es
  unfolding read_entries write_entries
  read_entries-write_entries unset [] rest h = refl
  read_entries-write_entries unset (e ∷ es) rest h = simp (
    append_assoc,
    read_entry-write_entry (unset (length es)) e _ h.0,
    read_entries-write_entries unset es rest h.1,
  )

  All-entries :
      (unset : ℕ → ℕ) (es : List Entry)
      → All IsEntry es
      → read_entries s unset (length es) (write_entries s es) ≡ es
  All-entries unset es h = rw append-nil at (read_entries-write_entries unset es [] h)

  -- The roster that a newcomer is sent is the roster that its CreateNetPlayers callback sees,
  -- whatever its uninitialised variables hold, if it has fewer than 2 ^ 31 entries of 32-bit
  -- numbers.
  pub read_create_net_players-write_body :
      (unset : ℕ → ℕ) (es : List Entry)
      → length es < 2 ^ 31
      → All IsEntry es
      → read_create_net_players s unset (write_body s (create_net_players es)) ≡ es
  unfolding read_create_net_players write_body
  read_create_net_players-write_body unset es short h =
      rw (read_int-write_int s 0 (length es) (write_entries s es) (omega arith))
        (ground (arith, All-entries unset es h))
