-- ===== src/Examples.antt =====
-- Runs at concrete inputs: a JSON library that keeps its laws, a ZooKeeper that answers, and the
-- theorems applied to them.
mod Documents
mod Keys
mod Texts
mod Servers
mod Requests
mod Starts
mod Replies
mod Lines
mod Hubs
mod Leaks
mod Orders
mod Recycling
mod Easy
mod Answers
