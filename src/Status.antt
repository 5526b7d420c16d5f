-- ===== src/Status.antt =====
-- The status page of the server: Server/src/main.cpp and Server/src/StatusServer.cpp.
pub mod Settings
pub mod Words
pub mod Json
pub mod Escape
pub mod Scan
pub mod Page
pub mod Main
