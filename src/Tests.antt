-- ===== src/Tests.antt =====
-- Runs of the theorems at concrete states, texts and answers of the system.
mod Sessions
mod Packets
mod Protocols
mod Stores
mod Chats
mod Pools
mod Connections
mod Configs
mod Servers
mod Databases
mod Members
mod Starts
mod Logins
