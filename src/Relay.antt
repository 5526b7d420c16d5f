-- ===== src/Relay.antt =====
-- Server/src/RelayServer.h and RelayServer.cpp: the dedicated server's relay.
pub mod State
pub mod Lookup
pub mod Sending
pub mod Handlers
pub mod Session
pub mod Members
pub mod Cases
pub mod Invariant
pub mod Delivery
pub mod Relayed
pub mod Joining
pub mod Leaving
pub mod Rate
pub mod Quiet
pub mod Anchor
pub mod Rendezvous
pub mod Started
