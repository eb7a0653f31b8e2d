-- ===== src/Tests.antt =====
-- The theorems at concrete inputs, and runs of the code.
mod Containers
mod Text
mod Sockets
mod Chat
mod Users
mod Leaving
