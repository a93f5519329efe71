-- ===== src/Consensus.antt =====
-- consensus.go, and the parts of block.go and client.go that change the stored chain: how a block
-- extends the main chain (Main), what happens to one that does not (Paths, Swap, Adopt), and how a
-- block or a txn that is announced or mined is adopted (Resolve). The other children prove
-- properties of these.
pub mod Main
pub mod Paths
pub mod Swap
pub mod Adopt
pub mod Resolve
pub mod Side
pub mod Written
pub mod Extend
pub mod Tip
pub mod Grown
