-- ===== src/Sockets/Closing.antt =====
-- Starting and stopping leaves no descriptor open, and the wait for the workers ends.
use crossover.Prelude.{
  ℕ, zero, suc, ◌+◌, ◌≤◌, ◌<◌, ◌≡◌, ◌↔◌, inl, inr, refl, ap, ◌∙◌, Bool, true, false, List, [], ◌∷◌,
  Option, none, some, ltb, ◌==◌, contains, arith, Bool-cases, if_cases, ltb→lt,
}
use crossover.Sockets.{
  Calls, Listener, close, listen_on, with_socket, start_tunnel, start_status, stop_listening, drain,
  drain_rounds, stop_tunnel,
}

-- Not started, or stopped again.
pub record IsIdle (l : Listener) : Type 0 where
  pub no_fd : l.listen_fd ≡ none
  pub not_running : l.running ≡ false
  pub not_joinable : l.joinable ≡ false

-- socket() returns a descriptor that is not open yet.
abbrev pub IsFresh : Option ℕ → List ℕ → Type 0
IsFresh none opened = Unit
IsFresh (some fd) opened = contains opened fd ≡ false

close-absent : (fd : ℕ) (xs : List ℕ) → contains xs fd ≡ false → close fd xs ≡ xs
close-absent fd [] h = refl
close-absent fd (x ∷ xs) h = ground (arith, close-absent fd xs)

close-new : (fd : ℕ) (xs : List ℕ) → contains xs fd ≡ false → close fd (fd ∷ xs) ≡ xs
close-new fd xs h = ground (arith, close-absent fd xs)

-- What starting and then stopping comes to.
abbrev pub Undone : Listener → Listener × Bool → Type 0
Undone l (s, ok) = ((ok ≡ false) → s ≡ l) × (stop_listening s ≡ l) × (s.aborted ≡ l.aborted)

with_socket-Undone :
    (c : Calls) (o : Option ℕ) (l : Listener)
    → IsIdle l
    → IsFresh o l.opened
    → Undone l (with_socket c o l)
unfolding listen_on stop_listening
with_socket-Undone c none l i f = ground (arith, i.no_fd, i.not_running)
with_socket-Undone c (some fd) l i f =
    ground (arith, i.no_fd, i.not_running, i.not_joinable, close-new fd l.opened)

add_swap : (i j : ℕ) → i + suc j ≡ i + 1 + j
add_swap i j = omega arith

add_nothing : (i : ℕ) → i + 0 ≡ i
add_nothing i = omega arith

ended : (i : ℕ) (active : ℕ → ℕ) → active i ≡ 0 → active (i + 0) ≡ 0
ended i active e = ap active (add_nothing i) ∙ e

off : (l : Listener) → IsIdle l → Undone l (l, true)
unfolding stop_listening
off l i = ground (arith, i.not_running)

longer :
    (n i : ℕ) (active : ℕ → ℕ)
    → 0 < active i
    → (drain n (i + 1) active ≤ n)
      × ((j : ℕ) → j < drain n (i + 1) active → 0 < active (i + 1 + j))
      × (drain n (i + 1) active < n → active (i + 1 + drain n (i + 1) active) ≡ 0)
    → (suc (drain n (i + 1) active) ≤ suc n)
      × ((j : ℕ) → j < suc (drain n (i + 1) active) → 0 < active (i + j))
      × (suc (drain n (i + 1) active) < suc n → active (i + suc (drain n (i + 1) active)) ≡ 0)
longer n i active pos (a, b, c) =
    (omega arith, busy, λ h. ap active (add_swap i (drain n (i + 1) active)) ∙ c (omega arith))
  where
    busy : (j : ℕ) → j < suc (drain n (i + 1) active) → 0 < active (i + j)
    busy zero h = rw (add_nothing i) pos
    busy (suc j) h = rw (add_swap i j) (b j (omega arith))

-- Whatever fails in Start of the tunnel or the status server, Stop after it brings an idle server
-- back to where it was, with no descriptor left open and nothing aborted; where Start returns
-- false, it has left nothing behind itself. The server is not started or stopped again, and
-- socket() returns a descriptor that is not open yet.
pub stop_listening-start :
    (c : Calls) (port : ℕ) (l : Listener)
    → IsIdle l
    → IsFresh c.socket l.opened
    → Undone l (start_tunnel c l) × Undone l (start_status port c l)
unfolding start_tunnel start_status
stop_listening-start c port l i f = (
  with_socket-Undone c c.socket l i f,
  if_cases (Undone l) (port == 0) (λ _. off l i) (λ _. with_socket-Undone c c.socket l i f),
)

-- How the wait goes, from its i-th reading on.
drain_lem :
    (rounds i : ℕ) (active : ℕ → ℕ)
    → (drain rounds i active ≤ rounds)
      × ((j : ℕ) → j < drain rounds i active → 0 < active (i + j))
      × (drain rounds i active < rounds → active (i + drain rounds i active) ≡ 0)
unfolding drain
drain_lem zero i active = (omega arith, λ j h. absurd (omega arith), λ h. absurd (omega arith))
drain_lem (suc n) i active = elim (Bool-cases (ltb 0 (active i))) [
  | inl on ↦ rw on (longer n i active (ground arith) (drain_lem n (i + 1) active))
  | inr done ↦
      rw done (omega arith, λ j h. absurd (omega arith), λ h. ended i active (ground arith))
]

nothing_add : (n : ℕ) → 0 + n ≡ n
nothing_add n = omega arith

-- The wait in terms of its number of sleeps.
drained :
    (n k : ℕ) (active : ℕ → ℕ)
    → ((j : ℕ) → j < n → 0 < active (0 + j))
    → (n < drain_rounds → active (0 + n) ≡ 0)
    → active k ≡ 0
    → k < drain_rounds
    → (n ≤ k) × (active n ≡ 0) × ((j : ℕ) → j < n → 0 < active j)
drained n k active busy ends e h = (soon, last, λ j p. rw (nothing_add j) at (busy j p))
  where
    soon : n ≤ k
    soon = elim (Bool-cases (ltb k n)) [
      | inl early ↦ absurd (omega (arith, busy k (ltb→lt k n early), ap active (nothing_add k), e))
      | inr late ↦ ground arith
    ]

    last : active n ≡ 0
    last = rw (nothing_add n) at (ends (omega (arith, soon, h)))

-- If one of the first 40 readings of the count of workers is 0, Stop of a running tunnel server,
-- once it has stopped listening, leaves its wait after exactly as many sleeps as readings were not
-- 0 from the first one on, with a reading of 0; it then warns exactly if the count that it reads
-- again, which a worker may have changed meanwhile, is not 0.
pub stop_tunnel-drains :
    (active : ℕ → ℕ) (later : ℕ) (l : Listener) (k : ℕ)
    → l.running ≡ true
    → active k ≡ 0
    → k < drain_rounds
    → let (s, n, warns) = stop_tunnel active later l in
      (s ≡ stop_listening l)
      × (n ≤ k)
      × (active n ≡ 0)
      × ((j : ℕ) → j < n → 0 < active j)
      × ((warns ≡ false) ↔ (later ≡ 0))
unfolding stop_tunnel
stop_tunnel-drains active later l k on e h =
    let (a, b, c) = drain_lem drain_rounds 0 active in
    let (soon, last, busy) = drained (drain drain_rounds 0 active) k active b c e h in
    rw on (refl, soon, last, busy, (λ q. ground arith, λ z. rw z refl))
