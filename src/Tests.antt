-- ===== src/Tests.antt =====
-- The theorems of the library on concrete inputs.
mod TtlMap
mod Cmd
mod Peers
mod Server
mod Listen
mod Tracker
mod Cli
mod Terminal
mod Background
mod Net
