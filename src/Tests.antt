-- ===== src/Tests.antt =====
-- Concrete inputs, and the theorems at them.
mod Samples
mod Pools
mod Entities
mod Adding
mod Bundles
mod Prices
mod Wallets
mod Life
mod Executing
mod Managing
mod Layers
