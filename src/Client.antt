-- ===== src/Client.antt =====
-- client/: the command line client.
pub mod CliClient
