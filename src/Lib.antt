-- ===== src/Lib.antt =====
-- Crossover: multiplayer for a single-player game. The development is about its dedicated server, the
-- tunnel through which players reach it, the mod that plays in the game, and the probes that read and
-- patch the running game.
--
-- The parts and how they interact. The server (Server/src/RelayServer.cpp) gives each client a network
-- id, tells the clients about each other and relays their movements; it owns no avatar. It speaks the
-- protocol of Server/include/Protocol.h, which it shares with the mod (Core/Multiplayer), over SLikeNet's
-- UDP. Where only TCP is let through, the server's tunnel (Server/src/Tunnel.cpp) and the player's
-- (Server/tunnel-client/crossover-tunnel.c) carry the datagrams as frames on a TCP connection: the
-- server's end opens a loopback socket for each, so that the relay sees one address for each player.
--
-- Wire: bytes, vectors, messages.
--   Wire/Bytes: BitStream::Write and Read of int and Vec3. What SLikeNet does to a block of bytes is the
--     parameter `BitStream`, an involution that keeps the length; `network_order` of Wire/SelfTest, the
--     reversal that Protocol.h describes, is an instance. A float is its pattern of 32 bits.
--   Wire/Messages: the ids and sizes of Protocol.h, and the reads and writes of each message as the
--     handlers do them. Wire/RoundTrip and Wire/SelfTest: ProtocolSelfTest, and what the two ends agree on.
-- Ids: the search for a free id, with the fuel `1 + length used`, which is always enough.
-- Config: the settings (Server/src/Config.h). Config/Environment: FromEnvironment of Server/src/Config.cpp,
--   with std::stoi and std::stof as the parameter `Numerals`. Config/Valid: what they are always like.
-- Relay: class RelayServer. `Server` holds its members, `Player` its players; a handler takes a packet
--   and returns the new state with the effects in order: packets sent, connections closed, the state
--   file written. A write through the pointer of FindByAddress is `replace_by_address`.
--   Relay/Lookup: FindByAddress, FindByNetworkId, AllocateNetworkId, AnchorPlayer, SpawnPositionFor.
--   Relay/Sending: RelayExcept, SendRoster. Relay/Handlers: the five packet handlers.
--   Relay/Session: AcceptRate, Tick, Start, Stop, PersistAnchor, LoadPersistedAnchor, Snapshot. `receive`
--     is one round of the loop in Tick; the packets that Receive returns and the readings of the clock
--     are its arguments.
--   The rest are proofs: Members and Invariant (the player table), Delivery, Relayed, Joining, Leaving
--     and Quiet (who is told what), Rate (the flood guard), Anchor and Rendezvous (where players spawn),
--     Started (a server under the settings that were read).
-- Tunnel: the two ends of the tunnel.
--   Tunnel/Framing: the frame of a datagram and the de-framing loop of both ends, on the fuel
--     `1 + length`, which is always enough.
--   Tunnel/Pump: WriteAll and PumpConnection. Tunnel/Client: main of crossover-tunnel.c. The results of
--     the system calls are arguments: one `Poll` or `Select` for each round.
--   Tunnel/Accept: AcceptLoop and the counting of its workers, as steps of two kinds of threads.
--   The rest are proofs: Stream (de-framing bytes as they come), Writing (what is sent), Reassembly
--     and Session (what arrives at the two ends), Room (the client's buffer).
-- Mod: the mod's own side (Core/Multiplayer). What it asks of the running game is the parameter `Engine`;
--   an int is its pattern of 32 bits, -1 the largest. What an uninitialised variable holds is part of it.
--   Mod/Network: the connection table and the sends of class Network (NetworkUtils.cpp, NetworkSender.cpp).
--   Mod/Players, Mod/Motion, Mod/Lifecycle, Mod/Local: class NetPlayerManager. An `Outcome` is the new
--     state with what was sent, or `none` where the code follows a null pointer; the loop of
--     DestroyNetPlayers takes fuel, and its model says so when the fuel ran out.
--   Mod/Session: NetworkDispatcher.cpp and Network.cpp with the callbacks that NetMainGameComponent
--     registers. An `Ending` also says that a call never returns: Disconnect runs DestroyNetPlayers with a
--     round for each player; where they are not enough no number is (Mod/Endless).
--   Mod/Component: NetMainGameComponent, frame by frame.
--   The rest are proofs: Tables, Invariant, LocalInvariant, SessionInvariant and ComponentInvariant (no
--     id is given twice), HostPlayers and Hosting (a host's null pointers and loops), Teardown and
--     Endless (leaving a session), Duplicates, and Sameness (the server against a playing host).
-- Status: Server/src/main.cpp and Server/src/StatusServer.cpp.
--   Status/Words, Status/Json: JsonEscape and BuildJson; how numbers and addresses are printed is the
--     parameter `Printers`. Status/Settings: Describe of Server/src/Config.cpp, which main prints.
--   Status/Page: a request and its answer. Status/Main: what main starts and stops.
--   Status/Escape and Status/Scan: what a reader of JSON makes of the page.
-- Sockets: the listening sockets of the tunnel and the status server (Start and Stop in
--   Server/src/Tunnel.cpp and Server/src/StatusServer.cpp), with the descriptors that are open and the
--   threads that are joinable; main starts the relay first, then the tunnel, then the status server. The wait
--   of TunnelServer::Stop is the loop `drain`, of 40 rounds; the count of workers is read once more
--   behind it. Sockets/Closing has the proofs.
-- Probe: the probes (tools/re-probe), libraries that are loaded into the game.
--   Probe/Memory: the game's memory, a function from addresses to bytes, and the words in it.
--   Probe/Layout: a definition of the frontend, its child list, and giving it another one.
--   Probe/Breakpoint: arm_bp, disarm_bp and bp_handler, which most probes have in common; what a probe does with
--     a definition is the parameter `edit`. Breakpoint/Restore and Breakpoint/Emulate are proofs.
--   Probe/Append (menu-append.c), Probe/Edits (menu-swap.c, menu-text.c, menu-key.c, menu-action.c),
--     Probe/Page (page-mods.c), Probe/Gallery (page-gallery.c) and Probe/Inspect (menu-inspect.c) are such
--     edits, from the early returns of each to the globals it sets; their child modules are proofs.
--   Probe/Regions: the walk over the address space with VirtualQuery as the parameter `query`. A region is not
--     empty and the addresses ascend, so 2 ^ 32 rounds are enough for any walk; Regions/Chain proves it.
--   Probe/Scan: the scans of probe.c, def-map.c and console.c. Scan/Owner: the walk back from a reference in
--     probe.c, at most 129 steps of 4 bytes.
--   Probe/Hunt (menu-utf16.c, menu-strings.c) and Probe/Survey (menu-label.c): the scans for definitions.
--   Probe/Replace: menu-mods.c. Replace/Applied is about apply, Replace/Whole about the scan and apply.
--   Probe/Text: the readers of text, with IsBadReadPtr as the parameter `bad`.
--   Probe/Stub: the trampoline of ui-probe.c. Stub/Runs has the instructions that it uses, for the proof.
--   Probe/Seal: seal.c, where the calls into the game are a list.
-- Examples: the theorems at concrete inputs. Prelude: the names and lemmas that all share.
--
-- Numbers are natural. The clock of the server does not run backwards, so a difference of two readings
-- is one of naturals; a count of packets wraps at 2 ^ 64. Network ids are small (at most the number of
-- players), so they stay in the range of `int`.
--
-- Not modelled: log lines, save for the settings; what the workers of the probes print, and the probes
-- that only dump or guess (page-survey.c, the float heuristics, and the dumps of def-map.c and
-- ui-probe.c); calls into the game by inline assembly; the scripts under tools/re-static;
-- the launcher, the bindings to the game and the vendored libraries, which are glue or not of this program.

pub mod Prelude
pub mod Wire
pub mod Ids
pub mod Config
pub mod Relay
pub mod Tunnel
pub mod Mod
pub mod Status
pub mod Sockets
pub mod Probe
pub mod Examples
