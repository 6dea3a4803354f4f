-- ===== src/Server.antt =====
-- internal/server/server.go: the requests of the lobby, with their retries and their status codes.
pub mod Lobby
pub mod Refused
pub mod Joined
