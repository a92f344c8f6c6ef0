-- ===== src/Server.antt =====
-- src/luaw_server.c: reading Lua files, starting the server and its loop.
pub mod Reader
pub mod Start
pub mod Listening
pub mod Serves
pub mod Loop
pub mod Stack
pub mod Room
pub mod Overflow
pub mod Agreement
