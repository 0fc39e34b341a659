-- ===== src/Tests.antt =====
-- The theorems of the library at concrete inputs, and runs of the code on small ones.
mod Samples
mod Logs
mod Wire
mod Registering
mod Sessions
mod Matchmaking
mod Starting
mod Texts
