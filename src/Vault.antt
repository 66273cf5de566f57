-- ===== src/Vault.antt =====
-- btcvault: the UTXOs that the bridge wallet holds, kept in a table, and the locks on them.
pub mod Utxo
pub mod Storage
pub mod Selection
pub mod Treasury
pub mod Run
pub mod Locks
pub mod Keys
pub mod Release
pub mod Linked
pub mod Minimal
pub mod Rounds
pub mod Exclusive
pub mod Once
pub mod Progress
pub mod Tests
