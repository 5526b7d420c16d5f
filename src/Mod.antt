-- ===== src/Mod.antt =====
-- Core/Multiplayer: the mod's own side of a session.
pub mod Network
pub mod Engine
pub mod Players
pub mod Motion
pub mod Lifecycle
pub mod Local
pub mod Session
pub mod Tables
pub mod Invariant
pub mod LocalInvariant
pub mod SessionInvariant
pub mod Component
pub mod ComponentInvariant
pub mod Teardown
pub mod Endless
pub mod Sameness
pub mod Duplicates
pub mod HostPlayers
pub mod Hosting
