-- ===== src/Sockets.antt =====
-- The listening sockets of Server/src/Tunnel.cpp and Server/src/StatusServer.cpp: what Start and Stop
-- do with the descriptor, the flag and the thread. What the socket calls return is a parameter of each
-- start. A std::thread that is given a new thread while it is joinable ends the program: `aborted`.
pub mod Closing
use crossover.Prelude.{
  ℕ, zero, suc, ◌+◌, Bool, true, false, not, ◌&&◌, ◌||◌, List, [], ◌∷◌, Option, none, some, ltb,
  ◌==◌, if◌then◌else◌, keep,
}

-- socket(), bind() and listen()
pub record Calls : Type 0 where
  pub socket : Option ℕ
  pub binds : Bool
  pub listens : Bool

-- listenFd_, running_ and the thread's joinable(), with the process's open descriptors.
pub record Listener : Type 0 where
  pub listen_fd : Option ℕ
  pub running : Bool
  pub joinable : Bool
  pub opened : List ℕ
  pub aborted : Bool

abbrev pub idle_listener : Listener
idle_listener = record {
  listen_fd = none;
  running = false;
  joinable = false;
  opened = [];
  aborted = false;
}

-- close(fd)
abbrev pub close : ℕ → List ℕ → List ℕ
close fd = keep λ x. not (x == fd)

-- After `listenFd_ = socket(...)`: the error paths close the descriptor and reset it.
unfoldable pub listen_on : Calls → ℕ → Listener → Listener × Bool
listen_on c fd l =
    let s = record l { listen_fd = some fd; opened = fd ∷ l.opened } in
    if not c.binds
    then (record s { listen_fd = none; opened = close fd s.opened }, false)
    else if not c.listens
    then (record s { listen_fd = none; opened = close fd s.opened }, false)
    else (record s { running = true; joinable = true; aborted = l.joinable || l.aborted }, true)

abbrev pub with_socket : Calls → Option ℕ → Listener → Listener × Bool
with_socket c none l = (record l { listen_fd = none }, false)
with_socket c (some fd) l = listen_on c fd l

-- TunnelServer::Start
unfoldable pub start_tunnel : Calls → Listener → Listener × Bool
unfolding listen_on
start_tunnel c l = with_socket c c.socket l

-- StatusServer::Start: the port 0 turns it off.
unfoldable pub start_status : (port : ℕ) → Calls → Listener → Listener × Bool
unfolding listen_on
start_status port c l = if port == 0 then (l, true) else with_socket c c.socket l

-- if (listenFd_ >= 0) { shutdown; close; listenFd_ = -1; }
abbrev pub close_listener : Option ℕ → Listener → Listener
close_listener none l = l
close_listener (some fd) l = record l { listen_fd = none; opened = close fd l.opened }

-- StatusServer::Stop, and the first half of TunnelServer::Stop: the exchange, the close, the join.
unfoldable pub stop_listening : Listener → Listener
stop_listening l =
    if not l.running
    then l
    else let s = close_listener l.listen_fd (record l { running = false }) in
      record s { joinable = false }

-- The wait of TunnelServer::Stop: how often it sleeps, for the readings of active_ one after another.
unfoldable pub drain : (rounds i : ℕ) → (ℕ → ℕ) → ℕ
drain zero i active = 0
drain (suc n) i active =
    let rest = drain n (i + 1) active in if ltb 0 (active i) then suc rest else 0

abbrev pub drain_rounds : ℕ
drain_rounds = 40

-- TunnelServer::Stop: the listener, the sleeps, and whether it warns of workers that still run. The
-- warning reads active_ again, after the loop: `later`, which a worker may have changed.
unfoldable pub stop_tunnel : (active : ℕ → ℕ) (later : ℕ) → Listener → Listener × ℕ × Bool
unfolding stop_listening drain
stop_tunnel active later l =
    if not l.running
    then (l, 0, false)
    else (stop_listening l, drain drain_rounds 0 active, ltb 0 later)
