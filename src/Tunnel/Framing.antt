-- ===== src/Tunnel/Framing.antt =====
-- The framing that Server/src/Tunnel.cpp and Server/tunnel-client/crossover-tunnel.c share: a
-- length of two bytes, high byte first, and the datagram.
use crossover.Prelude.{
  ℕ, zero, suc, ◌+◌, ◌*◌, ◌/◌, ◌%◌, Bool, ◌||◌, List, [], ◌∷◌, ◌++◌, length, take, drop, ltb, ◌==◌,
  if◌then◌else◌,
}

abbrev pub max_datagram : ℕ
max_datagram = 2048

abbrev pub frame_header : ℕ
frame_header = 2

-- `(n >> 8) & 0xFF`, `n & 0xFF`, and the bytes received.
unfoldable pub frame : List ℕ → List ℕ
frame d = length d / 256 % 256 ∷ length d % 256 ∷ d

-- `(inbound[0] << 8) | inbound[1]`, of bytes: the two halves share no bit.
abbrev pub frame_length : ℕ → ℕ → ℕ
frame_length high low = high * 256 + low

abbrev pub bad_length : ℕ → Bool
bad_length len = len == 0 || ltb max_datagram len

pub data Status : Type 0 where
  waiting bad_frame out_of_fuel : Status

-- What the loop passed on, what it left in `inbound`, and why it stopped.
pub record Drained : Type 0 where
  pub datagrams : List (List ℕ)
  pub rest : List ℕ
  pub status : Status

abbrev pub stopped : List ℕ → Status → Drained
stopped buf st = record { datagrams = []; rest = buf; status = st }

abbrev pub deliver : List ℕ → Drained → Drained
deliver d r = record r { datagrams = d ∷ r.datagrams }

abbrev pub deliver_all : List (List ℕ) → Drained → Drained
deliver_all ds r = record r { datagrams = ds ++ r.datagrams }

-- `while (inbound.size() >= kFrameHeader)`, with fuel.
unfoldable pub drain : ℕ → List ℕ → Drained
drain zero buf = stopped buf out_of_fuel
drain (suc fuel) [] = stopped [] waiting
drain (suc fuel) (b ∷ []) = stopped (b ∷ []) waiting
drain (suc fuel) (high ∷ low ∷ body) =
    let more = drain fuel (drop (frame_length high low) body) in
    if bad_length (frame_length high low)
    then stopped (high ∷ low ∷ body) bad_frame
    else if ltb (length body) (frame_length high low)
    then stopped (high ∷ low ∷ body) waiting
    else deliver (take (frame_length high low) body) more

-- Each round takes bytes out of the buffer, so its length is fuel enough.
unfoldable pub deframe : List ℕ → Drained
deframe buf = drain (suc (length buf)) buf

-- The bytes of several frames, and of several reads, one after the other.
abbrev pub joined : List (List ℕ) → List ℕ
joined [] = []
joined (c ∷ cs) = c ++ joined cs

abbrev pub frames : List (List ℕ) → List ℕ
frames [] = []
frames (d ∷ ds) = frame d ++ frames ds
