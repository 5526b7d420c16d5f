-- ===== src/Wire/SelfTest.antt =====
-- RelayServer::ProtocolSelfTest in Server/src/RelayServer.cpp, and the encoding that Protocol.h
-- describes. The id of the first user packet and the stream are what SLikeNet supplies.
use mathlib.Core.List.{reverse-reverse, reverse-append}
use crossover.Prelude.{
  ℕ, ◌≡◌, refl, List, [], ◌∷◌, ◌++◌, reverse, Bool, true, false, ◌&&◌, ◌==◌, length-reverse,
  append_assoc,
}
use crossover.Wire.Bytes.{
  Vec3, zero_vec, BitStream, le_bytes, vec_memory, write_int, write_vec, read_vec,
}

abbrev bytes_eq : List ℕ → List ℕ → Bool
bytes_eq [] [] = true
bytes_eq [] (y ∷ ys) = false
bytes_eq (x ∷ xs) [] = false
bytes_eq (x ∷ xs) (y ∷ ys) = x == y && bytes_eq xs ys

-- Vec3 v{1.0f, 2.0f, 3.0f}
abbrev pub probe : Vec3
probe = record { x = 0x3f80_0000; y = 0x4000_0000; z = 0x4040_0000 }

abbrev pub expected : List ℕ
expected = 0x40 ∷ 0x40 ∷ 0 ∷ 0 ∷ 0x40 ∷ 0 ∷ 0 ∷ 0 ∷ 0x3f ∷ 0x80 ∷ 0 ∷ 0 ∷ []

abbrev pub expected_int : List ℕ
expected_int = 0 ∷ 0 ∷ 0 ∷ 1 ∷ []

-- `connection_id` is ID_CONNECTION_NOTIFICATION as the library numbers it.
unfoldable pub protocol_self_test : ℕ → BitStream → Bool
protocol_self_test connection_id s =
    let (back, _) = read_vec s zero_vec (write_vec s probe) in
    connection_id == 134
    && bytes_eq (write_vec s probe) expected
    && bytes_eq (write_int s 1) expected_int
    && (back.x == probe.x && back.y == probe.y && back.z == probe.z)

-- The stream that Protocol.h describes: each value is reversed as one block.
abbrev pub network_order : BitStream
network_order = record { swap = reverse; swap-swap = reverse-reverse; length-swap = length-reverse }

-- A stream that swaps nothing, as SLikeNet would be with __BITSTREAM_NATIVE_END defined.
abbrev pub native_order : BitStream
native_order = record { swap = λ bs. bs; swap-swap = λ bs. refl; length-swap = λ bs. refl }

-- A number with its high byte first.
abbrev pub be_bytes : ℕ → List ℕ
be_bytes n = reverse (le_bytes 4 n)

-- With the block reversal that Protocol.h describes, a vector is on the wire the big-endian z,
-- then y, then x.
pub write_vec-network_order :
    (v : Vec3) → write_vec network_order v ≡ be_bytes v.z ++ (be_bytes v.y ++ be_bytes v.x)
unfolding write_vec vec_memory
write_vec-network_order v = simp (reverse-append, append_assoc)

self_test_passes : protocol_self_test 134 network_order ≡ true
unfolding protocol_self_test write_vec write_int vec_memory le_bytes read_vec
self_test_passes = refl

self_test_fails : protocol_self_test 134 native_order ≡ false
unfolding protocol_self_test write_vec write_int vec_memory le_bytes read_vec
self_test_fails = refl
