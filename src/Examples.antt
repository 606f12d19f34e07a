-- ===== src/Examples.antt =====
-- Runs at concrete inputs, and the theorems applied where their hypotheses hold.
mod Button
mod Protocol
mod Session
mod Page
mod Support
mod Vectors
mod Quarantine
mod Flasher
mod Config
mod Release
mod Catalog
