-- ===== src/Tests.antt =====
-- The theorems at concrete inputs.
mod Common
mod Bars
mod Tokens
mod Gate
mod Select
mod Signing
mod Storage
mod Feed
mod Pages
mod Service
