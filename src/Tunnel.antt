-- ===== src/Tunnel.antt =====
-- Server/src/Tunnel.cpp and Server/tunnel-client/crossover-tunnel.c: UDP datagrams over TCP.
pub mod Framing
pub mod Stream
pub mod Pump
pub mod Client
pub mod Writing
pub mod Reassembly
pub mod Session
pub mod Room
pub mod Accept
