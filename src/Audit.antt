-- ===== src/Audit.antt =====
-- internal/audit: the hash chain, the event table, and the batching logger with its retention.
pub mod Hashing
pub mod Table
pub mod Logger
pub mod Writer
pub mod Console
pub mod Loop
pub mod Open
pub mod Opened
pub mod Taken
pub mod Accounts
pub mod Ledger
pub mod Replay
pub mod Compared
pub mod Stored
pub mod Replayed
pub mod Service
pub mod Chain
pub mod Flush
pub mod Trim
pub mod Retain
pub mod Modes
pub mod Tests
pub mod LoopTests
mod ConsoleTests
mod OpenTests
pub mod ReplayTests
mod LogTests
