-- ===== src/Examples.antt =====
-- Concrete runs of the program, on which the theorems are applied.
mod Platform
mod Receipts
mod LiveRun
mod Merging
mod Steps
mod Gates
mod Chains
mod Commands
mod Patches
mod Bindings
mod Selection
mod Rows
mod Tampered
