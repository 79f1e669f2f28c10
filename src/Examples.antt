-- ===== src/Examples.antt =====
-- The theorems at a concrete cluster.
mod Sort
mod World
mod Scaling
mod Choice
mod Rounds
mod Cycle
mod Retries
mod Responds
mod History
mod Startup
