-- ===== src/State.antt =====
-- state: the shared state of the bridge, kept in a database: redeems, mints, and the last block that
-- was seen. The synchronizers send events to it, and the transaction managers read it.
pub mod Redeem
pub mod Tables
pub mod RedeemDb
pub mod MintDb
pub mod Handlers
pub mod Rows
pub mod Lifecycle
pub mod Updates
pub mod Preparation
pub mod Mints
pub mod Life
pub mod History
pub mod Arrival
pub mod EitherOrder
pub mod Minted
pub mod MintOnce
pub mod Deposits
pub mod Numbers
pub mod Finalized
pub mod Tests
pub mod NumberTests
