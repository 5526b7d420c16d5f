-- ===== src/Probe/Memory.antt =====
-- The memory of the game's process, as the probes of tools/re-probe read and write it through
-- cast pointers: a byte at every address, and little-endian 32-bit words.
use crossover.Prelude.{
  ℕ, zero, suc, ◌+◌, ◌*◌, ◌/◌, ◌%◌, ◌^◌, ◌≤◌, ◌<◌, ◌≡◌, refl, ap, ◌⊎◌, inl, inr, Bool, ◌&&◌, List,
  [], ◌∷◌, ◌++◌, leb, ltb, ◌==◌, if◌then◌else◌, length, arith, Bool-cases,
}

abbrev pub Memory : Type 0
Memory = ℕ → ℕ

abbrev pub IsMemory : Memory → Type 0
IsMemory m = (a : ℕ) → m a < 256

-- *(unsigned char *)(uintptr_t)a = v
unfoldable pub set_byte : Memory → ℕ → ℕ → Memory
set_byte m a v x = if x == a then v else m x

-- *(DWORD *)(uintptr_t)a
unfoldable pub dword : Memory → ℕ → ℕ
dword m a = m a + 256 * m (a + 1) + 65536 * m (a + 2) + 16777216 * m (a + 3)

-- *(DWORD *)(uintptr_t)a = v
unfoldable pub store : Memory → ℕ → ℕ → Memory
store m a v x =
    if x == a
    then v % 256
    else if x == a + 1
    then v / 256 % 256
    else if x == a + 2
    then v / 65536 % 256
    else if x == a + 3
    then v / 16777216 % 256
    else m x

-- *(unsigned short *)(uintptr_t)a
unfoldable pub word16 : Memory → ℕ → ℕ
word16 m a = m a + 256 * m (a + 1)

-- memcpy((void *)a, bytes, sizeof bytes)
unfoldable pub write_bytes : Memory → ℕ → List ℕ → Memory
unfolding set_byte
write_bytes m a [] = m
write_bytes m a (b ∷ bs) = write_bytes (set_byte m a b) (a + 1) bs

unfoldable pub read_bytes : Memory → ℕ → ℕ → List ℕ
read_bytes m a zero = []
read_bytes m a (suc n) = m a ∷ read_bytes m (a + 1) n

-- The bytes of a wide literal, its terminator included.
unfoldable pub wide : List ℕ → List ℕ
wide [] = 0 ∷ 0 ∷ []
wide (c ∷ cs) = c ∷ 0 ∷ wide cs

-- PLAUSIBLE
unfoldable pub plausible : ℕ → Bool
plausible p = leb 0x400000 p && ltb p 0x20000000

-- The `n` words from address `a` on.
unfoldable pub dwords : Memory → ℕ → ℕ → List ℕ
dwords m a zero = []
dwords m a (suc n) = dword m a ∷ dwords m (a + 4) n

-- `n` bytes at `a` and `k` bytes at `b` have none in common.
abbrev pub Apart : ℕ → ℕ → ℕ → ℕ → Type 0
Apart a n b k = (a + n ≤ b) ⊎ (b + k ≤ a)

pub dword-store : (m : Memory) (a v : ℕ) → v < 2 ^ 32 → dword (store m a v) a ≡ v
unfolding dword store
dword-store m a v h = ground arith

pub dword-store-Apart : (m : Memory) (a v b : ℕ) → Apart a 4 b 4 → dword (store m a v) b ≡ dword m b
unfolding dword store
dword-store-Apart m a v b h = ground arith

pub store_outside : (m : Memory) (a v x : ℕ) → (x < a) ⊎ (a + 4 ≤ x) → store m a v x ≡ m x
unfolding store
store_outside m a v x h = ground arith

pub store-IsMemory : (m : Memory) (a v : ℕ) → IsMemory m → IsMemory (store m a v)
unfolding store
store-IsMemory m a v h x = ground (arith, h x)

pub dword-lt : (m : Memory) (a : ℕ) → IsMemory m → dword m a < 2 ^ 32
unfolding dword
dword-lt m a h = omega (arith, h a, h (a + 1), h (a + 2), h (a + 3))

pub dwords-store-Apart :
    (m : Memory) (a v b n : ℕ) → Apart a 4 b (4 * n) → dwords (store m a v) b n ≡ dwords m b n
unfolding dwords
dwords-store-Apart m a v b zero h = refl
dwords-store-Apart m a v b (suc n) h =
    ground (arith, dword-store-Apart m a v b, dwords-store-Apart m a v (b + 4) n)

-- Memories that agree on the bytes of a list have the same list.
pub dword_same :
    (m m' : Memory) (a : ℕ) → ((x : ℕ) → a ≤ x → x < a + 4 → m' x ≡ m x) → dword m' a ≡ dword m a
unfolding dword
dword_same m m' a h = ground (arith, h a, h (a + 1), h (a + 2), h (a + 3))

pub dwords_same :
    (m m' : Memory) (a n : ℕ)
    → ((x : ℕ) → a ≤ x → x < a + 4 * n → m' x ≡ m x)
    → dwords m' a n ≡ dwords m a n
unfolding dwords
dwords_same m m' a zero h = refl
dwords_same m m' a (suc n) h = ground (
  arith,
  dword_same m m' a (λ x p q. h x p (omega arith)),
  dwords_same m m' (a + 4) n (λ x p q. h x (omega arith) (omega arith)),
)

pub length-dwords : (m : Memory) (a n : ℕ) → length (dwords m a n) ≡ n
unfolding dwords
length-dwords m a zero = refl
length-dwords m a (suc n) = ap suc (length-dwords m (a + 4) n)

pub dwords_snoc :
    (m : Memory) (a n : ℕ) → dwords m a (suc n) ≡ dwords m a n ++ dword m (a + 4 * n) ∷ []
unfolding dwords
dwords_snoc m a zero = ap (λ x. dword m x ∷ []) (omega arith)
dwords_snoc m a (suc n) = ground (arith, dwords_snoc m (a + 4) n)

pub dwords-dword :
    (m m' : Memory) (a b n i : ℕ)
    → dwords m a n ≡ dwords m' b n
    → i < n
    → dword m (a + 4 * i) ≡ dword m' (b + 4 * i)
unfolding dwords
dwords-dword m m' a b zero i e h = absurd (omega arith)
dwords-dword m m' a b (suc n) zero e h = ground (arith)
dwords-dword m m' a b (suc n) (suc i) e h =
    let p : a + 4 * suc i ≡ a + 4 + 4 * i = omega arith in
    let q : b + 4 * suc i ≡ b + 4 + 4 * i = omega arith in
    rw (p, q) (dwords-dword m m' (a + 4) (b + 4) n i (cc) (omega arith))

pub write_bytes_outside :
    (m : Memory) (a : ℕ) (bs : List ℕ) (x : ℕ)
    → (x < a) ⊎ (a + length bs ≤ x)
    → write_bytes m a bs x ≡ m x
unfolding write_bytes
write_bytes_outside m a [] x h = refl
write_bytes_outside m a (b ∷ bs) x h =
    ground (arith, write_bytes_outside (set_byte m a b) (a + 1) bs x)

pub read_bytes-write_bytes :
    (m : Memory) (a : ℕ) (bs : List ℕ) → read_bytes (write_bytes m a bs) a (length bs) ≡ bs
unfolding write_bytes read_bytes
read_bytes-write_bytes m a [] = refl
read_bytes-write_bytes m a (b ∷ bs) = ground (
  arith,
  write_bytes_outside (set_byte m a b) (a + 1) bs a,
  read_bytes-write_bytes (set_byte m a b) (a + 1) bs,
)

-- Inside of what it writes, a write does not depend on the memory before it.
pub write_bytes_inside :
    (m m' : Memory) (a : ℕ) (bs : List ℕ) (x : ℕ)
    → a ≤ x
    → x < a + length bs
    → write_bytes m a bs x ≡ write_bytes m' a bs x
unfolding write_bytes
write_bytes_inside m m' a [] x p q = absurd (omega arith)
write_bytes_inside m m' a (b ∷ bs) x p q = elim (Bool-cases (x == a)) [
  | inl e ↦ ground (
    arith,
    write_bytes_outside (set_byte m a b) (a + 1) bs x,
    write_bytes_outside (set_byte m' a b) (a + 1) bs x,
  )
  | inr n ↦
      write_bytes_inside (set_byte m a b) (set_byte m' a b) (a + 1) bs x (ground arith)
        (omega arith)
]

pub dword-write_bytes-Apart :
    (m : Memory) (a : ℕ) (bs : List ℕ) (b : ℕ)
    → Apart a (length bs) b 4
    → dword (write_bytes m a bs) b ≡ dword m b
dword-write_bytes-Apart m a bs b h =
    dword_same m (write_bytes m a bs) b (λ x p q. write_bytes_outside m a bs x (ground arith))

pub read_bytes_same :
    (m m' : Memory) (a n : ℕ)
    → ((x : ℕ) → a ≤ x → x < a + n → m' x ≡ m x)
    → read_bytes m' a n ≡ read_bytes m a n
unfolding read_bytes
read_bytes_same m m' a zero h = refl
read_bytes_same m m' a (suc n) h = ground (
  arith,
  h a (omega arith) (omega arith),
  read_bytes_same m m' (a + 1) n (λ x p q. h x (omega arith) (omega arith)),
)
