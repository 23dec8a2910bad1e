-- ===== src/Examples.antt =====
-- The theorems at concrete inputs, for each part of the program.
mod Buffers
mod Messages
mod Tasks
mod Sockets
mod Jobs
mod Connections
mod Requests
mod Services
mod Rounds
mod Threads
mod Lines
mod Keys
mod Rows
mod Counters
mod Hosts
mod Joins
mod Races
