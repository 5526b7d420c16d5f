-- ===== src/Wire/Bytes.antt =====
-- The bytes of an `int` and of a `Vec3` in memory, and what BitStream::Write and Read do with them.
-- A float is its 32-bit pattern. SLikeNet is not part of the repository's own code: all that the
-- program uses of its endian swap is that it permutes one block of bytes and undoes itself.
use native.Mathlib.Nat.{pow-suc}
use crossover.Prelude.{
  ℕ, zero, suc, ◌+◌, ◌*◌, ◌/◌, ◌%◌, ◌^◌, ◌<◌, ◌≡◌, refl, ap, List, [], ◌∷◌, ◌++◌, length, take,
  drop, leb, if◌then◌else◌, length-append, take-append_eq, drop-append_eq, arith, ◌∙◌,
}

-- Layout-compatible stand-in for the game's C3DVector.
pub record Vec3 : Type 0 where
  pub x : ℕ
  pub y : ℕ
  pub z : ℕ

abbrev pub IsWord : ℕ → Type 0
IsWord n = n < 2 ^ 32

abbrev pub IsVec : Vec3 → Type 0
IsVec v = IsWord v.x × IsWord v.y × IsWord v.z

abbrev pub zero_vec : Vec3
zero_vec = record { x = 0; y = 0; z = 0 }

-- `Write<T>` turns the `sizeof(T)` bytes of the value around as one block, and `Read<T>` back.
pub record BitStream : Type 0 where
  pub swap : List ℕ → List ℕ
  pub swap-swap : (bs : List ℕ) → swap (swap bs) ≡ bs
  pub length-swap : (bs : List ℕ) → length (swap bs) ≡ length bs

-- The `k` bytes of a number in memory, low byte first.
unfoldable pub le_bytes : ℕ → ℕ → List ℕ
le_bytes zero n = []
le_bytes (suc k) n = n % 256 ∷ le_bytes k (n / 256)

unfoldable pub word : List ℕ → ℕ
word [] = 0
word (b ∷ bs) = b + 256 * word bs

unfoldable pub vec_memory : Vec3 → List ℕ
vec_memory v = le_bytes 4 v.x ++ (le_bytes 4 v.y ++ le_bytes 4 v.z)

pub length-le_bytes : (k n : ℕ) → length (le_bytes k n) ≡ k
unfolding le_bytes
length-le_bytes zero n = refl
length-le_bytes (suc k) n = ap suc (length-le_bytes k (n / 256))

pub word-le_bytes : (k n : ℕ) → n < 256 ^ k → word (le_bytes k n) ≡ n
unfolding le_bytes word
word-le_bytes zero n h = omega arith
word-le_bytes (suc k) n h =
    let small : n / 256 < 256 ^ k = omega (arith, pow-suc 256 k) in
    omega (arith, word-le_bytes k (n / 256) small)

pub length-vec_memory : (v : Vec3) → length (vec_memory v) ≡ 12
unfolding vec_memory
length-vec_memory v = omega (
  arith,
  length-append (le_bytes 4 v.x) (le_bytes 4 v.y ++ le_bytes 4 v.z),
  length-append (le_bytes 4 v.y) (le_bytes 4 v.z),
  length-le_bytes 4 v.x,
  length-le_bytes 4 v.y,
  length-le_bytes 4 v.z,
)

unfoldable pub memory_vec : List ℕ → Vec3
unfolding word
memory_vec bs = record {
  x = word (take 4 bs);
  y = word (take 4 (drop 4 bs));
  z = word (take 4 (drop 8 bs));
}

pub memory_vec-vec_memory : (v : Vec3) → IsVec v → memory_vec (vec_memory v) ≡ v
unfolding memory_vec vec_memory le_bytes word
memory_vec-vec_memory v h = ground arith

module _ (s : BitStream) where
  -- bs.Write(int) and bs.Write(Vec3)
  unfoldable pub write_int : ℕ → List ℕ
  write_int n = s.swap (le_bytes 4 n)

  unfoldable pub write_vec : Vec3 → List ℕ
  write_vec v = s.swap (vec_memory v)

  -- bs.Read leaves its variable as it was where the stream is too short.
  unfoldable pub read_int : ℕ → List ℕ → ℕ × List ℕ
  unfolding word
  read_int old bs = if leb 4 (length bs) then (word (s.swap (take 4 bs)), drop 4 bs) else (old, bs)

  unfoldable pub read_vec : Vec3 → List ℕ → Vec3 × List ℕ
  unfolding memory_vec
  read_vec old bs =
      if leb 12 (length bs) then (memory_vec (s.swap (take 12 bs)), drop 12 bs) else (old, bs)

  pub length-write_int : (n : ℕ) → length (write_int n) ≡ 4
  unfolding write_int
  length-write_int n = s.length-swap (le_bytes 4 n) ∙ length-le_bytes 4 n

  pub length-write_vec : (v : Vec3) → length (write_vec v) ≡ 12
  unfolding write_vec
  length-write_vec v = s.length-swap (vec_memory v) ∙ length-vec_memory v

  pub read_int-write_int :
      (old n : ℕ) (rest : List ℕ) → IsWord n → read_int old (write_int n ++ rest) ≡ (n, rest)
  unfolding read_int write_int
  read_int-write_int old n rest h =
      let m : List ℕ = s.swap (le_bytes 4 n) in
      ground (
        arith,
        length-write_int n,
        length-append m rest,
        take-append_eq 4 m rest (length-write_int n),
        drop-append_eq 4 m rest (length-write_int n),
        s.swap-swap (le_bytes 4 n),
        word-le_bytes 4 n h,
      )

  pub read_vec-write_vec :
      (old v : Vec3) (rest : List ℕ) → IsVec v → read_vec old (write_vec v ++ rest) ≡ (v, rest)
  unfolding read_vec write_vec
  read_vec-write_vec old v rest h =
      let m : List ℕ = s.swap (vec_memory v) in
      ground (
        arith,
        length-write_vec v,
        length-append m rest,
        take-append_eq 12 m rest (length-write_vec v),
        drop-append_eq 12 m rest (length-write_vec v),
        s.swap-swap (vec_memory v),
        memory_vec-vec_memory v h,
      )
