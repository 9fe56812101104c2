-- ===== src/Tests.antt =====
-- Runs of the definitions and of the theorems at concrete inputs.
mod Codec
mod Values
mod Delivery
mod Loops
mod Serving
mod Exchanges
mod Mains
mod Hashing
mod Trees
mod Transactions
mod Wallets
mod Files
mod Utilities
