-- ===== src/Tests.antt =====
-- Concrete runs: a small instance of what the program calls, a few blocks and txns, and each
-- theorem with hypotheses applied to them.
mod Toy
mod Data
mod Blocks
mod Chains
mod Reading
mod Spending
mod Extending
mod Signing
mod Payments
mod Running
mod Making
mod Wallets
mod Clients
mod Balances
mod Starting
mod Spent
mod Swapping
