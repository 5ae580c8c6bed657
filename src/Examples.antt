-- ===== src/Examples.antt =====
-- Concrete inputs, tests of the definitions on them, and the theorems at them.
mod Data
mod Texts
mod Net
mod Discovery
mod BlockQueue
mod Storage
mod Sqlite
mod Memory
mod BlockManager
mod Crawler
mod Caches
mod Peers
mod Config
mod Utils
mod Values
mod Startup
mod Api
